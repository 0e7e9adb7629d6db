-- ===== src/Match/Valid.antt =====
-- match_isvalid() against the grammar of patterns that PROTOCOL describes.
use infod.Prelude.{
  ℕ, suc, ◌-◌, ◌≡◌, refl, sym, ◌∙◌, ◌≢◌, inl, inr, Bool, true, false, ◌&&◌, ◌||◌, Option, none,
  some, List, [], ◌∷◌, arith, length, leb, ◌==◌, if◌then◌else◌, Bool-cases,
}
use mathlib.Core.Bool.{false≢true}
use infod.Match.{
  deref, advance, Subject, check, at, Paren, State, Verdict, pass, mismatch, invalid, Outcome, stop,
  go, star_step, open_step, bar_step, note_success, close_outer, close_group, close_step, fail_char,
  char_step, plain_step, finish, resume, run, start_at, do_match, is_pass, cstr, match,
  match_isvalid,
}

-- The grammar, read left to right with the number of open groups: one byte that is no escape,
-- before the rest of the pattern.
pub depth_step : ℕ → List ℕ → ℕ → Option ℕ
depth_step p rest d =
    if p == b'*'
    then (if deref rest == b'*' || deref rest == b'('
        then none
        else if deref rest == b'\\' && (deref (advance rest) == 0)
        then none
        else some d)
    else if p == b'('
    then (if leb 4 d then none else some (suc d))
    else if p == b'|'
    then (if d == 0 then none else some d)
    else if p == b')'
    then (if d == 0 then none else some (d - 1))
    else some d

abbrev pub and_then : Option ℕ → (ℕ → Bool) → Bool
and_then none k = false
and_then (some e) k = k e

-- A pattern is well formed when every escape has its byte, every group is closed, no group is nested
-- deeper than four, `|` stands in a group, and `*` is not followed by `*` or `(`.
pub is_well_formed_at : ℕ → List ℕ → Bool
is_well_formed_at d [] = d == 0
is_well_formed_at d (p ∷ []) =
    if p == b'\\' then false else and_then (depth_step p [] d) (λ e. is_well_formed_at e [])
is_well_formed_at d (p ∷ c ∷ rest) =
    let here = is_well_formed_at d rest in
    if p == b'\\'
    then here
    else and_then (depth_step p (c ∷ rest) d) (λ e. is_well_formed_at e (c ∷ rest))

abbrev pub is_well_formed : List ℕ → Bool
is_well_formed pattern = is_well_formed_at 0 pattern

-- What a round does, beside what the grammar says of it.
abbrev Fits : Outcome → Option ℕ → Type 0
Fits (stop pass) o = ⊥
Fits (stop mismatch) o = Unit
Fits (stop invalid) o = o ≡ none
Fits (go st) o = o ≡ some (length st.parens)

star_step-Fits :
    (rest : List ℕ) (st : State)
    → Fits (star_step rest st) (depth_step b'*' rest (length st.parens))
unfolding star_step depth_step
star_step-Fits rest st = ground arith

open_step-Fits :
    (rest : List ℕ) (st : State) → Fits (open_step st) (depth_step b'(' rest (length st.parens))
unfolding open_step depth_step
open_step-Fits rest st = ground arith

bar_step-Fits :
    (rest : List ℕ) (s : Subject) (ps : List Paren)
    → Fits (bar_step s ps) (depth_step b'|' rest (length ps))
unfolding bar_step depth_step
bar_step-Fits rest s [] = ground arith
bar_step-Fits rest s (p ∷ ps) = ground arith

close_outer-Fits : (s : Subject) (e : Option Subject) → Fits (close_outer s e) (some 0)
unfolding close_outer
close_outer-Fits check e = refl
close_outer-Fits (at s) none = tt
close_outer-Fits (at s) (some e) = refl

close_step-Fits :
    (rest : List ℕ) (s : Subject) (ps : List Paren)
    → Fits (close_step s ps) (depth_step b')' rest (length ps))
unfolding close_step close_group depth_step
close_step-Fits rest s [] = ground arith
close_step-Fits rest s (p ∷ []) = close_outer-Fits s (note_success s p).success
close_step-Fits rest s (p ∷ q ∷ ps) = ground arith

char_step-Fits :
    (any : Bool) (c : ℕ) (s : Subject) (ps : List Paren)
    → Fits (char_step any c s ps) (some (length ps))
unfolding char_step fail_char
char_step-Fits any c check ps = refl
char_step-Fits any c (at s) [] = ground arith
char_step-Fits any c (at s) (p ∷ ps) = ground arith

plain_step-Fits :
    (p : ℕ) (rest : List ℕ) (st : State)
    → Fits (plain_step p rest st) (depth_step p rest (length st.parens))
unfolding plain_step depth_step
plain_step-Fits p rest st = elim (Bool-cases (p == b'*')) [
  | inl e ↦ rw e (star_step-Fits rest st)
  | inr e ↦ rw e (elim (Bool-cases (p == b'(')) [
    | inl f ↦ rw f (open_step-Fits rest st)
    | inr f ↦ rw f (elim (Bool-cases (p == b'|')) [
      | inl g ↦ rw g (bar_step-Fits rest st.subject st.parens)
      | inr g ↦ rw g (elim (Bool-cases (p == b')')) [
        | inl h ↦ rw h (close_step-Fits rest st.subject st.parens)
        | inr h ↦ rw h (char_step-Fits (p == b'?') p st.subject st.parens)
      ])
    ])
  ])
]

-- A verdict beside the grammar's answer: a mismatch may come before the rest of the pattern is read.
abbrev Agrees : Verdict → Bool → Type 0
Agrees pass b = b ≡ true
Agrees mismatch b = Unit
Agrees invalid b = b ≡ false

finish-Agrees : (s : Subject) (ps : List Paren) → Agrees (finish s ps) (length ps == 0)
unfolding finish
finish-Agrees s (p ∷ ps) = ground arith
finish-Agrees check [] = refl
finish-Agrees (at s) [] = ground arith

resume-Agrees :
    (out : Outcome) (o : Option ℕ) (k : State → Verdict) (b : ℕ → Bool)
    → Fits out o
    → ((st : State) → Agrees (k st) (b (length st.parens)))
    → Agrees (resume out k) (and_then o b)
resume-Agrees (stop pass) o k b f h = elim f [ ]
resume-Agrees (stop mismatch) o k b f h = tt
resume-Agrees (stop invalid) o k b f h = rw f refl
resume-Agrees (go st) o k b f h = rw f (h st)

run-Agrees :
    (pattern : List ℕ) (st : State)
    → Agrees (run pattern st) (is_well_formed_at (length st.parens) pattern)
unfolding run is_well_formed_at
run-Agrees [] st = finish-Agrees st.subject st.parens
run-Agrees (p ∷ []) st = elim (Bool-cases (p == b'\\')) [
  | inl e ↦ rw e refl
  | inr e ↦ rw e (
      resume-Agrees (plain_step p [] st) (depth_step p [] (length st.parens)) (run [])
        (λ e. is_well_formed_at e []) (plain_step-Fits p [] st) (λ st'. run-Agrees [] st'))
]
run-Agrees (p ∷ c ∷ rest) st = elim (Bool-cases (p == b'\\')) [
  | inl e ↦ rw e (
      resume-Agrees (char_step false c st.subject st.parens) (some (length st.parens)) (run rest)
        (λ e. is_well_formed_at e rest) (char_step-Fits false c st.subject st.parens)
        (λ st'. run-Agrees rest st'))
  | inr e ↦ rw e (
      resume-Agrees (plain_step p (c ∷ rest) st) (depth_step p (c ∷ rest) (length st.parens))
        (run (c ∷ rest)) (λ e. is_well_formed_at e (c ∷ rest)) (plain_step-Fits p (c ∷ rest) st)
        (λ st'. run-Agrees (c ∷ rest) st'))
]

-- With the pointer CHECK no round compares a byte, so that none finds a mismatch.
abbrev NoMismatch : Outcome → Type 0
NoMismatch (stop v) = v ≢ mismatch
NoMismatch (go st) = st.subject ≡ check

plain_step-NoMismatch :
    (p : ℕ) (rest : List ℕ) (ps : List Paren)
    → NoMismatch (plain_step p rest (record { subject = check; parens = ps }))
unfolding plain_step star_step open_step bar_step close_step close_group close_outer char_step
plain_step-NoMismatch p rest [] = ground arith
plain_step-NoMismatch p rest (q ∷ []) = ground arith
plain_step-NoMismatch p rest (q ∷ r ∷ ps) = ground arith

resume-check :
    (out : Outcome) (k : State → Verdict)
    → NoMismatch out
    → ((ps : List Paren) → k (record { subject = check; parens = ps }) ≢ mismatch)
    → resume out k ≢ mismatch
resume-check (stop v) k h f = h
resume-check (go st) k h f = rw h (f st.parens)

run-check :
    (pattern : List ℕ) (ps : List Paren)
    → run pattern (record { subject = check; parens = ps }) ≢ mismatch
unfolding run finish char_step
run-check [] [] = cc
run-check [] (q ∷ ps) = cc
run-check (p ∷ []) ps = elim (Bool-cases (p == b'\\')) [
  | inl e ↦ rw e (cc)
  | inr e ↦ rw e (resume-check _ (run []) (plain_step-NoMismatch p [] ps) (λ ps'. run-check [] ps'))
]
run-check (p ∷ c ∷ rest) ps = elim (Bool-cases (p == b'\\')) [
  | inl e ↦ rw e (run-check rest ps)
  | inr e ↦ rw e (
      resume-check _ (run (c ∷ rest)) (plain_step-NoMismatch p (c ∷ rest) ps)
        (λ ps'. run-check (c ∷ rest) ps'))
]

Agrees-check : (v : Verdict) (b : Bool) → Agrees v b → v ≢ mismatch → is_pass v ≡ b
unfolding is_pass
Agrees-check pass b h n = sym h
Agrees-check mismatch b h n = absurd (n refl)
Agrees-check invalid b h n = sym h

Agrees-valid : (v : Verdict) (b : Bool) → Agrees v b → b ≡ true → v ≢ invalid
Agrees-valid pass b h e = cc
Agrees-valid mismatch b h e = cc
Agrees-valid invalid b h e = λ _. false≢true (sym h ∙ e)

Agrees-pass : (v : Verdict) (b : Bool) → Agrees v b → v ≡ pass → b ≡ true
Agrees-pass pass b h e = h
Agrees-pass mismatch b h e = cc
Agrees-pass invalid b h e = cc

-- For every pattern buffer, match_isvalid() answers whether the C string in it is well formed:
-- escapes complete, groups closed and nested at most four deep, `|` inside a group, and no `**`
-- or `*(`.
pub match_isvalid-eq-is_well_formed :
    (pattern : List ℕ) → match_isvalid pattern ≡ is_well_formed (cstr pattern)
unfolding match_isvalid do_match
match_isvalid-eq-is_well_formed pattern =
    Agrees-check _ _ (run-Agrees (cstr pattern) (start_at check)) (run-check (cstr pattern) [])

match-Agrees : (pattern string : List ℕ) → Agrees (match pattern string) (match_isvalid pattern)
unfolding match do_match
match-Agrees pattern string =
    rw (match_isvalid-eq-is_well_formed pattern)
      (run-Agrees (cstr pattern) (start_at (at (cstr string))))

-- If match_isvalid() accepts a pattern, match() never returns -1 for it, whatever the string.
pub match-ne-invalid :
    (pattern string : List ℕ) → match_isvalid pattern ≡ true → match pattern string ≢ invalid
match-ne-invalid pattern string valid e =
    Agrees-valid (match pattern string) _ (match-Agrees pattern string) valid e

-- If match() returns 1, then match_isvalid() accepts the pattern: text that is consumed before a
-- malformed part does not hide it.
pub match_isvalid-of_pass :
    (pattern string : List ℕ) → match pattern string ≡ pass → match_isvalid pattern ≡ true
match_isvalid-of_pass pattern string e =
    Agrees-pass (match pattern string) _ (match-Agrees pattern string) e
