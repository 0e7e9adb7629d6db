-- ===== src/Match/Glob/Forward.antt =====
-- The loop of `*c` reaches the first `c`, for an ASCII `c`.
use infod.Prelude.{
  ℕ, zero, suc, ◌≤◌, ◌<◌, ◌≡◌, refl, sym, ◌∙◌, inl, inr, true, false, not, ◌&&◌, List, [], ◌∷◌,
  arith, length, ◌==◌, ==_iff, if◌then◌else◌, Bool-cases, holds_under, holds_under-test,
}
use infod.Match.{is_lead, is_continuation, utf8eq, skip_continuation, utf8inc, greedy_forward}
use infod.Match.Glob.{HasNoNul}

ascii_table : holds_under (λ c. not (is_lead c) && not (is_continuation c)) 128 ≡ true
unfolding holds_under is_lead is_continuation
ascii_table = refl

pub is_lead-ascii : (c : ℕ) → c < 128 → is_lead c ≡ false
is_lead-ascii c h = ground (arith, holds_under-test _ 128 c h ascii_table)

pub is_continuation-ascii : (c : ℕ) → c < 128 → is_continuation c ≡ false
is_continuation-ascii c h = ground (arith, holds_under-test _ 128 c h ascii_table)

-- The suffix that starts with the first `c`; empty if there is none.
abbrev pub from_first : ℕ → List ℕ → List ℕ
from_first c [] = []
from_first c (d ∷ s) = if d == c then d ∷ s else from_first c s

from_first-skip :
    (c : ℕ) (s : List ℕ) → c < 128 → from_first c (skip_continuation s) ≡ from_first c s
unfolding skip_continuation
from_first-skip c [] h = refl
from_first-skip c (d ∷ s) h =
    ground (arith, from_first-skip c s h, is_continuation-ascii c h, ==_iff d c)

from_first-utf8inc :
    (c d : ℕ) (s : List ℕ) → c < 128 → from_first c (utf8inc (d ∷ s)) ≡ from_first c s
unfolding utf8inc
from_first-utf8inc c d s h = ground (arith, from_first-skip c s h)

length-skip : (s : List ℕ) → length (skip_continuation s) ≤ length s
unfolding skip_continuation
length-skip [] = omega arith
length-skip (d ∷ s) = ground (arith, length-skip s)

length-utf8inc : (d : ℕ) (s : List ℕ) → length (utf8inc (d ∷ s)) ≤ length s
unfolding utf8inc
length-utf8inc d s = ground (arith, length-skip s)

HasNoNul-skip : (s : List ℕ) → HasNoNul s → HasNoNul (skip_continuation s)
unfolding skip_continuation
HasNoNul-skip [] h = h
HasNoNul-skip (d ∷ s) h = elim (Bool-cases (is_continuation d)) [
  | inl e ↦ rw e (HasNoNul-skip s h.1)
  | inr e ↦ rw e h
]

pub HasNoNul-utf8inc : (d : ℕ) (s : List ℕ) → HasNoNul (d ∷ s) → HasNoNul (utf8inc (d ∷ s))
unfolding utf8inc
HasNoNul-utf8inc d s h = elim (Bool-cases (is_lead d)) [
  | inl e ↦ rw e (HasNoNul-skip s h.1)
  | inr e ↦ rw e h.1
]

pub HasNoNul-from_first : (c : ℕ) (s : List ℕ) → HasNoNul s → HasNoNul (from_first c s)
HasNoNul-from_first c [] h = h
HasNoNul-from_first c (d ∷ s) h = elim (Bool-cases (d == c)) [
  | inl e ↦ rw e h
  | inr e ↦ rw e (HasNoNul-from_first c s h.1)
]

utf8eq-ascii : (c d : ℕ) (r s : List ℕ) → c < 128 → utf8eq (d ∷ s) (c ∷ r) ≡ (d == c)
unfolding utf8eq
utf8eq-ascii c d r s h = ground (arith, is_lead-ascii c h, ==_iff d c)

-- `length s` rounds are enough.
pub greedy-eq-from_first :
    (fuel c : ℕ) (r s : List ℕ)
    → c < 128
    → HasNoNul s
    → length s ≤ fuel
    → greedy_forward fuel (c ∷ r) s ≡ from_first c s
unfolding greedy_forward
greedy-eq-from_first zero c r [] h nn l = refl
greedy-eq-from_first zero c r (d ∷ s) h nn l = absurd (omega arith)
greedy-eq-from_first (suc fuel) c r [] h nn l = refl
greedy-eq-from_first (suc fuel) c r (d ∷ s) h nn l = ground (
  arith,
  nn.0,
  utf8eq-ascii c d r s h,
  from_first-utf8inc c d s h,
  greedy-eq-from_first fuel c r (utf8inc (d ∷ s)) h (HasNoNul-utf8inc d s nn)
      (omega (arith, length-utf8inc d s)),
)

utf8eq-rest : (c : ℕ) (r s : List ℕ) → c < 128 → utf8eq s (c ∷ r) ≡ utf8eq s (c ∷ [])
utf8eq-rest c r (d ∷ s) h = utf8eq-ascii c d r s h ∙ sym (utf8eq-ascii c d [] s h)
utf8eq-rest c r [] h = unfold utf8eq in ground (arith, is_lead-ascii 0 (omega arith))

-- Nothing of the pattern behind an ASCII `c` is read.
pub greedy-rest :
    (fuel c : ℕ) (r s : List ℕ)
    → c < 128
    → greedy_forward fuel (c ∷ r) s ≡ greedy_forward fuel (c ∷ []) s
unfolding greedy_forward
greedy-rest zero c r s h = refl
greedy-rest (suc fuel) c r s h = rw (utf8eq-rest c r s h) (rw (greedy-rest fuel c r (utf8inc s) h))
