-- ===== src/Match.antt =====
-- daemon/match.c: matching a glob-like pattern against a key, one byte at a time.
-- A C string is the list of its bytes before the NUL; a pointer into it is a suffix of the list.
pub mod Valid
pub mod Glob
pub mod Escape
mod Tests
use infod.Prelude.{
  ℕ, zero, suc, ◌+◌, ◌≤◌, Bool, true, false, not, ◌&&◌, ◌||◌, Option, none, some, List, [], ◌∷◌,
  bit_and, length, ltb, leb, ◌==◌, if◌then◌else◌,
}

-- `*s`
abbrev pub deref : List ℕ → ℕ
deref [] = 0
deref (c ∷ s) = c

-- `s + 1`, of a string that is not at its end.
abbrev pub advance : List ℕ → List ℕ
advance [] = []
advance (c ∷ s) = s

-- `(c & 0xc0) == 0xc0`: the first byte of a UTF-8 sequence.
unfoldable pub is_lead : ℕ → Bool
is_lead c = bit_and c 0xc0 == 0xc0

-- `(c & 0xc0) == 0x80`: a later byte of a UTF-8 sequence.
unfoldable pub is_continuation : ℕ → Bool
is_continuation c = bit_and c 0xc0 == 0x80

-- The loop of utf8eq over the continuation bytes of `a`.
unfoldable pub utf8eq_rest : List ℕ → List ℕ → Bool
utf8eq_rest [] b = true
utf8eq_rest (c ∷ a) b =
    let rest = utf8eq_rest a (advance b) in
    if is_continuation c then (if c == deref b then rest else false) else true

unfoldable pub utf8eq : List ℕ → List ℕ → Bool
utf8eq a b =
    if not (deref a == deref b)
    then false
    else if not (is_lead (deref a))
    then true
    else utf8eq_rest (advance a) (advance b)

unfoldable pub skip_continuation : List ℕ → List ℕ
skip_continuation [] = []
skip_continuation (c ∷ s) =
    let rest = skip_continuation s in if is_continuation c then rest else c ∷ s

-- Applied at a byte that is not the NUL.
unfoldable pub utf8inc : List ℕ → List ℕ
utf8inc s = if is_lead (deref s) then skip_continuation (advance s) else advance s

-- `while (*string && !utf8eq(string, pattern)) utf8inc(&string);`
-- Each round drops a byte, so that `length string` rounds reach the end.
unfoldable pub greedy_forward : ℕ → List ℕ → List ℕ → List ℕ
greedy_forward zero pattern s = s
greedy_forward (suc fuel) pattern s =
    let rest = greedy_forward fuel pattern (utf8inc s) in
    if deref s == 0 || utf8eq s pattern then s else rest

-- The string argument: the special pointer CHECK, or a place in the string.
pub data Subject : Type 0 where
  check : Subject
  at : List ℕ → Subject

pub record Paren : Type 0 where
  pub start : Subject
  pub failed : Bool
  pub success : Option Subject

abbrev pub max_paren : ℕ
max_paren = 4

-- The locals of do_match. The stack `paren .. parens[0]` has its top first; `paren == NULL` is [].
pub record State : Type 0 where
  pub subject : Subject
  pub parens : List Paren

-- The results 1, 0 and -1.
pub data Verdict : Type 0 where
  pass mismatch invalid : Verdict

pub data Outcome : Type 0 where
  stop : Verdict → Outcome
  go : State → Outcome

-- `if (string != CHECK) string = s`
abbrev pub move_to : Subject → List ℕ → Subject
move_to check s = check
move_to (at _) s = at s

abbrev pub forward : List ℕ → Subject → Subject
forward pattern check = check
forward pattern (at s) = at (greedy_forward (length s) pattern s)

-- '*' before the rest of the pattern.
unfoldable pub star_step : List ℕ → State → Outcome
star_step pattern st =
    let n = deref pattern in
    if n == b'*' || n == b'('
    then stop invalid
    else if n == 0 || (n == b'|' || n == b')')
    then go (record st { subject = move_to st.subject [] })
    else if n == b'?'
    then go st
    else if n == b'\\' && (deref (advance pattern) == 0)
    then stop invalid
    else go (record st { subject = forward pattern st.subject })

unfoldable pub open_step : State → Outcome
open_step st =
    if leb max_paren (length st.parens)
    then stop invalid
    else go (record st {
      parens = record { start = st.subject; failed = false; success = none } ∷ st.parens;
    })

-- `if (!paren->failed && !paren->success) paren->success = string;`
unfoldable pub note_success : Subject → Paren → Paren
note_success s p = elim p.success [
  | none ↦ if p.failed then p else record p { success = some s }
  | some _ ↦ p
]

-- `if (string != CHECK) string = s`, of a pointer.
abbrev pub jump : Subject → Subject → Subject
jump check s = check
jump (at _) s = s

unfoldable pub bar_step : Subject → List Paren → Outcome
bar_step s [] = stop invalid
bar_step s (p ∷ ps) = go (record {
  subject = jump s p.start;
  parens = record (note_success s p) { failed = false } ∷ ps;
})

-- The end of the outer group: with no success it is a mismatch.
unfoldable pub close_outer : Subject → Option Subject → Outcome
close_outer check e = go (record { subject = check; parens = [] })
close_outer (at s) none = stop mismatch
close_outer (at s) (some e) = go (record { subject = e; parens = [] })

-- The end of a group: further in, one with no success makes the branch around it fail.
unfoldable pub close_group : Subject → Option Subject → List Paren → Outcome
close_group s e [] = close_outer s e
close_group s none (q ∷ qs) = go (record { subject = s; parens = record q { failed = true } ∷ qs })
close_group s (some e) (q ∷ qs) = go (record { subject = jump s e; parens = q ∷ qs })

unfoldable pub close_step : Subject → List Paren → Outcome
close_step s [] = stop invalid
close_step s (p ∷ ps) = close_group s (note_success s p).success ps

-- A failed comparison fails the innermost branch, or the whole match.
unfoldable pub fail_char : List ℕ → List Paren → Outcome
fail_char s [] = stop mismatch
fail_char s (p ∷ ps) = go (record { subject = at s; parens = record p { failed = true } ∷ ps })

-- `?` compares any byte but the NUL and passes a character; another byte compares itself.
unfoldable pub char_step : Bool → ℕ → Subject → List Paren → Outcome
char_step any c check ps = go (record { subject = check; parens = ps })
char_step any c (at s) ps =
    if any
    then (if deref s == 0
        then fail_char s ps
        else go (record { subject = at (utf8inc s); parens = ps }))
    else (if deref s == c
        then go (record { subject = at (advance s); parens = ps })
        else fail_char s ps)

-- One round of the loop for a `p` that is no escape, with the rest of the pattern.
unfoldable pub plain_step : ℕ → List ℕ → State → Outcome
plain_step p pattern st =
    if p == b'*'
    then star_step pattern st
    else if p == b'('
    then open_step st
    else if p == b'|'
    then bar_step st.subject st.parens
    else if p == b')'
    then close_step st.subject st.parens
    else char_step (p == b'?') p st.subject st.parens

unfoldable pub finish : Subject → List Paren → Verdict
finish s (_ ∷ _) = invalid
finish check [] = pass
finish (at s) [] = if deref s == 0 then pass else mismatch

abbrev pub resume : Outcome → (State → Verdict) → Verdict
resume (stop v) k = v
resume (go st) k = k st

-- The loop over the pattern; `\\c` compares c as it is.
unfoldable pub run : List ℕ → State → Verdict
run [] st = finish st.subject st.parens
run (p ∷ []) st = if p == b'\\' then invalid else resume (plain_step p [] st) (run [])
run (p ∷ c ∷ pattern) st =
    if p == b'\\'
    then resume (char_step false c st.subject st.parens) (run pattern)
    else resume (plain_step p (c ∷ pattern) st) (run (c ∷ pattern))

abbrev pub start_at : Subject → State
start_at s = record { subject = s; parens = [] }

unfoldable pub do_match : List ℕ → Subject → Verdict
do_match pattern s = run pattern (start_at s)

-- The bytes of a `char *` buffer before its first NUL.
unfoldable pub cstr : List ℕ → List ℕ
cstr [] = []
cstr (c ∷ s) = let rest = cstr s in if c == 0 then [] else c ∷ rest

unfoldable pub is_pass : Verdict → Bool
is_pass pass = true
is_pass _ = false

-- The result of match() as its callers test it: 1 is true and 0 false. -1 would be true as well.
unfoldable pub match_result : Verdict → Bool
match_result mismatch = false
match_result _ = true

unfoldable pub match : List ℕ → List ℕ → Verdict
unfolding do_match run plain_step star_step open_step bar_step close_step close_group close_outer
    note_success char_step fail_char finish greedy_forward utf8eq utf8eq_rest utf8inc
    skip_continuation is_lead is_continuation cstr
match pattern string = do_match (cstr pattern) (at (cstr string))

unfoldable pub match_isvalid : List ℕ → Bool
unfolding match is_pass
match_isvalid pattern = is_pass (do_match (cstr pattern) check)
