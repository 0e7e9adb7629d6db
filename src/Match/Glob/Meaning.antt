-- ===== src/Match/Glob/Meaning.antt =====
-- do_match() on the text of a pattern decides the meaning of the pattern.
use infod.Prelude.{
  ℕ, ◌<◌, ◌≡◌, refl, ◌∙◌, ap, true, false, Option, none, some, List, [], ◌∷◌, arith, length, ◌==◌,
  if◌then◌else◌, ltb→lt, inl, inr, Bool-cases,
}
use infod.Match.{
  at, State, Verdict, pass, mismatch, fail_char, char_step, star_step, open_step, close_outer,
  close_group, plain_step, finish, resume, run, start_at, do_match,
}
use infod.Match.Glob.{
  Glob, end, rest, lit, esc, until, any, star_any, group, Branches, print, print_branches, after,
  after_first, after_char, bind, remains, remains_branches, takes_all, is_regular, is_proper,
  are_proper, HasNoNul,
}
use infod.Match.Glob.Forward.{from_first, greedy-eq-from_first}
use infod.Match.Glob.Walk.{run-plain, run-regular, star-regular, at_place}
use infod.Match.Glob.Run.{begin, group_end, and-left, and-right, run-branches}
use infod.Match.Glob.Follow.{
  regular-nonzero, not-true, byte-Follows, char-Follows, until-Follows, Follows-HasNoNul,
  branches_follow, branches-HasNoNul,
}

-- Going on at what remains, outside every group.
abbrev onward : Option (List ℕ) → (State → Verdict) → Verdict
onward none κ = mismatch
onward (some s) κ = κ (start_at (at s))

byte_step :
    (c : ℕ) (s : List ℕ) (κ : State → Verdict)
    → HasNoNul s
    → (c == 0) ≡ false
    → resume (char_step false c (at s) []) κ ≡ onward (after c s) κ
unfolding char_step fail_char after
byte_step c [] κ h nz = ground arith
byte_step c (d ∷ s) κ h nz = elim (Bool-cases (d == c)) [ inl e ↦ rw e refl | inr e ↦ rw e refl ]

first_step :
    (c : ℕ) (s : List ℕ) (κ : State → Verdict)
    → HasNoNul s
    → (c == 0) ≡ false
    → resume (char_step false c (at (from_first c s)) []) κ ≡ onward (after_first c s) κ
unfolding char_step fail_char after_first
first_step c [] κ h nz = ground arith
first_step c (d ∷ s) κ h nz = elim (Bool-cases (d == c)) [
  | inl e ↦ rw e (rw e refl)
  | inr e ↦ rw e (first_step c s κ h.1 nz)
]

any_step :
    (s : List ℕ) (κ : State → Verdict)
    → HasNoNul s
    → resume (char_step true b'?' (at s) []) κ ≡ onward (after_char s) κ
unfolding char_step fail_char after_char
any_step [] κ h = refl
any_step (d ∷ s) κ h = let e : (d == 0) ≡ false = ground (arith, h.0) in rw e refl

close_step :
    (s : List ℕ) (e : Option (List ℕ)) (κ : State → Verdict)
    → resume (close_group (at s) (at_place e) []) κ ≡ onward e κ
unfolding close_group close_outer
close_step s none κ = refl
close_step s (some t) κ = refl

-- Nothing more is left of the pattern.
abbrev verdict : Option (List ℕ) → Verdict
verdict o = if takes_all o then pass else mismatch

run-nil : (s : List ℕ) → HasNoNul s → run [] (start_at (at s)) ≡ verdict (some s)
unfolding run finish
run-nil [] h = refl
run-nil (d ∷ s) h = let e : (d == 0) ≡ false = ground (arith, h.0) in rw e refl

onward_meaning :
    (g : Glob) (o : Option (List ℕ))
    → ((s : List ℕ) → o ≡ some s → HasNoNul s)
    → ((s : List ℕ) → HasNoNul s → run (print g []) (start_at (at s)) ≡ verdict (remains g s))
    → onward o (run (print g [])) ≡ verdict (bind o (remains g))
onward_meaning g none h f = refl
onward_meaning g (some s) h f = f s (h s refl)

-- Three elements are met with outside every group: a byte, a byte behind `*`, and a character.
module _ (g : Glob) (s : List ℕ) (nn : HasNoNul s)
    (later : (t : List ℕ)
      → HasNoNul t
      → run (print g []) (start_at (at t)) ≡ verdict (remains g t)) where
  byte_meaning :
      (c : ℕ)
      → (c == 0) ≡ false
      → resume (char_step false c (at s) []) (run (print g []))
        ≡ verdict (bind (after c s) (remains g))
  byte_meaning c nz =
      byte_step c s (run (print g [])) nn nz
      ∙ onward_meaning g (after c s)
          (λ t. Follows-HasNoNul _ (after c s) t (byte-Follows c s nn nz)) later

  char_meaning :
      run (b'?' ∷ print g []) (start_at (at s)) ≡ verdict (bind (after_char s) (remains g))
  unfolding plain_step
  char_meaning =
      run-plain b'?' (print g []) (start_at (at s)) refl
      ∙ any_step s (run (print g [])) nn
      ∙ onward_meaning g (after_char s)
          (λ t. Follows-HasNoNul _ (after_char s) t (char-Follows s nn)) later

  star_char_meaning :
      run (b'*' ∷ b'?' ∷ print g []) (start_at (at s)) ≡ verdict (bind (after_char s) (remains g))
  unfolding plain_step star_step
  star_char_meaning = run-plain b'*' (b'?' ∷ print g []) (start_at (at s)) refl ∙ char_meaning

  escape_meaning :
      (c : ℕ)
      → (c == 0) ≡ false
      → run (b'\\' ∷ c ∷ print g []) (start_at (at s)) ≡ verdict (bind (after c s) (remains g))
  unfolding run
  escape_meaning c nz = byte_meaning c nz

  until_meaning :
      (c : ℕ)
      → is_regular c ≡ true
      → c < 128
      → run (b'*' ∷ c ∷ print g []) (start_at (at s)) ≡ verdict (bind (after_first c s) (remains g))
  unfolding plain_step
  until_meaning c r l =
      run-plain b'*' (c ∷ print g []) (start_at (at s)) refl
      ∙ ap (λ o. resume o (run (c ∷ print g []))) (star-regular c (print g []) s [] r l)
      ∙ ap (λ t. run (c ∷ print g []) (start_at (at t)))
          (greedy-eq-from_first (length s) c [] s l nn (omega arith))
      ∙ run-regular c (print g []) (start_at (at (from_first c s))) r
      ∙ first_step c s (run (print g [])) nn (regular-nonzero c r)
      ∙ onward_meaning g (after_first c s)
          (λ t. Follows-HasNoNul _ (after_first c s) t (until-Follows c s nn r l)) later

  group_meaning :
      (a : Branches)
      → are_proper 3 a ≡ true
      → run (b'(' ∷ print_branches a (b')' ∷ print g [])) (start_at (at s))
        ≡ verdict (bind (remains_branches a s) (remains g))
  unfolding plain_step open_step
  group_meaning a h =
      run-plain b'(' (print_branches a (b')' ∷ print g [])) (start_at (at s)) refl
      ∙ run-branches a 3 (print g []) (begin s) s none [] h (omega arith)
      ∙ close_step (group_end a (begin s)).0.text (group_end a (begin s)).1 (run (print g []))
      ∙ ap (λ o. onward o (run (print g []))) (branches_follow a 3 s none h nn)
      ∙ onward_meaning g (remains_branches a s) (branches-HasNoNul a 3 s h nn) later

run-star : (s : List ℕ) → run (b'*' ∷ []) (start_at (at s)) ≡ pass
unfolding run plain_step star_step finish
run-star s = refl

run-print :
    (g : Glob) (s : List ℕ)
    → is_proper 4 g ≡ true
    → HasNoNul s
    → run (print g []) (start_at (at s)) ≡ verdict (remains g s)
unfolding print remains is_proper
run-print end s h nn = run-nil s nn
run-print rest s h nn = run-star s
run-print (lit c g) s h nn =
    run-regular c (print g []) (start_at (at s)) (and-left _ _ h)
    ∙ byte_meaning g s nn (λ t. run-print g t (and-right _ _ h)) c
        (regular-nonzero c (and-left _ _ h))
run-print (esc c g) s h nn =
    escape_meaning g s nn (λ t. run-print g t (and-right _ _ h)) c (not-true _ (and-left _ _ h))
run-print (until c g) s h nn =
    until_meaning g s nn (λ t. run-print g t (and-right _ _ (and-right _ _ h))) c (and-left _ _ h)
      (ltb→lt _ _ (and-left _ _ (and-right _ _ h)))
run-print (any g) s h nn = char_meaning g s nn (λ t. run-print g t h)
run-print (star_any g) s h nn = star_char_meaning g s nn (λ t. run-print g t h)
run-print (group a g) s h nn =
    group_meaning g s nn (λ t. run-print g t (and-right (are_proper 3 a) _ h)) a (and-left _ _ h)

-- For a pattern in the language of PROTOCOL, with groups at most four deep and ASCII bytes behind
-- `*`, and a string with no NUL: do_match() returns 1 exactly if the pattern takes the whole string,
-- and 0 otherwise.
pub do_match-print :
    (g : Glob) (s : List ℕ)
    → is_proper 4 g ≡ true
    → HasNoNul s
    → do_match (print g []) (at s) ≡ (if takes_all (remains g s) then pass else mismatch)
unfolding do_match
do_match-print g s h nn = run-print g s h nn
