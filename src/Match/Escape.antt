-- ===== src/Match/Escape.antt =====
-- `*` before an escape in daemon/match.c: the loop compares the string with the backslash itself.
use infod.Prelude.{ℕ, ◌≡◌, refl, ◌∙◌, ap, ◌≢◌, false, List, [], ◌∷◌, arith, length, ◌==◌, All}
use infod.Match.{
  greedy_forward, check, at, mismatch, pass, go, fail_char, char_step, star_step, plain_step,
  finish, resume, run, start_at, do_match,
}
use infod.Match.Glob.{HasNoNul}
use infod.Match.Glob.Forward.{from_first, greedy-eq-from_first}

from_first-absent : (c : ℕ) (s : List ℕ) → All (λ d. d ≢ c) s → from_first c s ≡ []
from_first-absent c [] h = refl
from_first-absent c (d ∷ s) h = ground (arith, h.0, from_first-absent c s h.1)

star-backslash :
    (c : ℕ) (s : List ℕ)
    → (c == 0) ≡ false
    → star_step (b'\\' ∷ c ∷ []) (start_at (at s))
      ≡ go (start_at (at (greedy_forward (length s) (b'\\' ∷ c ∷ []) s)))
unfolding star_step
star-backslash c s h = rw h refl

-- Behind `*` an escape finds only a literal backslash: for every byte c, a string with no backslash
-- in it does not match `*\c`, though it may end in c, and though the pattern is valid.
pub do_match-star_escape :
    (c : ℕ) (s : List ℕ)
    → c ≢ 0
    → HasNoNul s
    → All (λ d. d ≢ b'\\') s
    → (do_match (b'*' ∷ b'\\' ∷ c ∷ []) (at s) ≡ mismatch)
      × (do_match (b'*' ∷ b'\\' ∷ c ∷ []) check ≡ pass)
unfolding do_match run plain_step
do_match-star_escape c s nz nn nb =
    let e : (c == 0) ≡ false = ground (arith, nz) in
    (
      ap (λ o. resume o (run (b'\\' ∷ c ∷ []))) (star-backslash c s e)
          ∙ ap (λ t. run (b'\\' ∷ c ∷ []) (start_at (at t)))
              (greedy-eq-from_first (length s) b'\\' (c ∷ []) s (omega arith) nn (omega arith)
                ∙ from_first-absent b'\\' s nb)
          ∙ unfold char_step fail_char in ground (arith, nz),
      unfold star_step char_step finish in rw e refl,
    )
