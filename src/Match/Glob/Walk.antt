-- ===== src/Match/Glob/Walk.antt =====
-- What the loop of do_match does with the text of a pattern inside a group, where a failed branch
-- is read on to its end.
use infod.Prelude.{
  ℕ, ◌<◌, ◌≡◌, refl, ◌∙◌, ap, inl, inr, Bool, true, false, ◌||◌, Option, none, some, List, [], ◌∷◌,
  arith, length, ◌==◌, if◌then◌else◌, Bool-cases,
}
use infod.Match.{
  deref, advance, utf8inc, greedy_forward, Subject, at, Paren, State, Verdict, go, star_step,
  note_success, close_group, fail_char, char_step, plain_step, resume, run,
}
use infod.Match.Glob.{
  Glob, end, rest, lit, esc, until, any, star_any, group, Branches, one, or, is_regular,
}
use infod.Match.Glob.Forward.{greedy-rest}

pub record Place : Type 0 where
  pub text : List ℕ
  pub failed : Bool

-- One comparison in a group.
abbrev pub compare_byte : ℕ → Place → Place
compare_byte c p =
    if deref p.text == c then record p { text = advance p.text } else record p { failed = true }

abbrev pub compare_any : Place → Place
compare_any p =
    if deref p.text == 0 then record p { failed = true } else record p { text = utf8inc p.text }

abbrev pub noted : Place → Option (List ℕ) → Option (List ℕ)
noted p (some e) = some e
noted p none = if p.failed then none else some p.text

-- Behind the group.
abbrev pub resumed : Place → Option (List ℕ) → Bool → Place
resumed p (some e) failed = record { text = e; failed = failed }
resumed p none failed = record { text = p.text; failed = true }

unfoldable mutual
  pub walk : Glob → Place → Place
  walk end p = p
  walk rest p = record p { text = [] }
  walk (lit c g) p = walk g (compare_byte c p)
  walk (esc c g) p = walk g (compare_byte c p)
  walk (until c g) p =
      walk g (compare_byte c (record p { text = greedy_forward (length p.text) (c ∷ []) p.text }))
  walk (any g) p = walk g (compare_any p)
  walk (star_any g) p = walk g (compare_any p)
  walk (group a g) p = walk g (
      resumed (walk_branches a p.text (record { text = p.text; failed = false }) none).0
        (walk_branches a p.text (record { text = p.text; failed = false }) none).1 p.failed)

  -- The place before `)` and the success noted by then.
  pub walk_branches : Branches → List ℕ → Place → Option (List ℕ) → Place × Option (List ℕ)
  walk_branches (one g) start p found = (walk g p, noted (walk g p) found)
  walk_branches (or g a) start p found =
      walk_branches a start (record { text = start; failed = false }) (noted (walk g p) found)

pub run-plain :
    (p : ℕ) (k : List ℕ) (st : State)
    → (p == b'\\') ≡ false
    → run (p ∷ k) st ≡ resume (plain_step p k st) (run k)
unfolding run
run-plain p [] st h = rw h
run-plain p (c ∷ k) st h = rw h

regular_step :
    (c : ℕ) (k : List ℕ) (st : State)
    → is_regular c ≡ true
    → plain_step c k st ≡ char_step false c st.subject st.parens
unfolding plain_step is_regular
regular_step c k st h = ground arith

pub run-regular :
    (c : ℕ) (k : List ℕ) (st : State)
    → is_regular c ≡ true
    → run (c ∷ k) st ≡ resume (char_step false c st.subject st.parens) (run k)
run-regular c k st h =
    run-plain c k st (unfold is_regular in ground arith)
    ∙ ap (λ o. resume o (run k)) (regular_step c k st h)

-- The state of the loop at a place in the group whose paren is `q`.
abbrev pub inside : Place → Paren → List Paren → State
inside p q ps = record { subject = at p.text; parens = record q { failed = p.failed } ∷ ps }

pub char-inside :
    (c : ℕ) (p : Place) (q : Paren) (ps : List Paren) (κ : State → Verdict)
    → resume (char_step false c (at p.text) (record q { failed = p.failed } ∷ ps)) κ
      ≡ κ (inside (compare_byte c p) q ps)
unfolding char_step fail_char
char-inside c p q ps κ = elim (Bool-cases (deref p.text == c)) [
  | inl e ↦ rw e refl
  | inr e ↦ rw e refl
]

pub any-inside :
    (c : ℕ) (p : Place) (q : Paren) (ps : List Paren) (κ : State → Verdict)
    → resume (char_step true c (at p.text) (record q { failed = p.failed } ∷ ps)) κ
      ≡ κ (inside (compare_any p) q ps)
unfolding char_step fail_char
any-inside c p q ps κ = elim (Bool-cases (deref p.text == 0)) [
  | inl e ↦ rw e refl
  | inr e ↦ rw e refl
]

-- `*` before a plain ASCII byte.
pub star-regular :
    (c : ℕ) (k s : List ℕ) (ps : List Paren)
    → is_regular c ≡ true
    → c < 128
    → star_step (c ∷ k) (record { subject = at s; parens = ps })
      ≡ go (record { subject = at (greedy_forward (length s) (c ∷ []) s); parens = ps })
unfolding star_step is_regular
star-regular c k s ps h l = ground (arith, greedy-rest (length s) c k s l)

-- What may follow a final `*`.
abbrev pub closes : List ℕ → Bool
closes k = deref k == 0 || (deref k == b'|' || deref k == b')')

pub star-closes :
    (k s : List ℕ) (ps : List Paren)
    → closes k ≡ true
    → star_step k (record { subject = at s; parens = ps })
      ≡ go (record { subject = at []; parens = ps })
unfolding star_step
star-closes k s ps h = ground arith

abbrev pub at_place : Option (List ℕ) → Option Subject
at_place none = none
at_place (some s) = some (at s)

pub note-noted :
    (p : Place) (found : Option (List ℕ)) (s : Subject)
    → note_success (at p.text) (record { start = s; failed = p.failed; success = at_place found })
      ≡ record { start = s; failed = p.failed; success = at_place (noted p found) }
unfolding note_success
note-noted p found s = ground arith

pub close-resumed :
    (p : Place) (e : Option (List ℕ)) (f : Bool) (q : Paren) (ps : List Paren) (κ : State → Verdict)
    → resume (close_group (at p.text) (at_place e) (record q { failed = f } ∷ ps)) κ
      ≡ κ (inside (resumed p e f) q ps)
unfolding close_group
close-resumed p none f q ps κ = refl
close-resumed p (some s) f q ps κ = refl
