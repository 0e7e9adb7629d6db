-- ===== src/Prelude/Ends.antt =====
-- How a call ends.
use mathlib.Core.Path.{◌≡◌, sym, ap, ◌∙◌}

-- The end of a call: a failed assertion (or a read outside of an array) is `aborted`, and `spins` is
-- out of rounds.
pub data Run (A : Type 0) : Type 0 where
  done : A → Run A
  aborted : Run A
  spins : Run A

infixl 5 ◌>>=◌
abbrev pub ◌>>=◌ : {A B : Type 0} → Run A → (A → Run B) → Run B
done a >>= f = f a
aborted >>= f = aborted
spins >>= f = spins

value : {A : Type 0} → A → Run A → A
value a (done b) = b
value a aborted = a
value a spins = a

-- A run has one result.
pub done_inj : {A : Type 0} {r : Run A} {a b : A} → r ≡ done a → r ≡ done b → a ≡ b
unfolding value
done_inj {a = a} e f = ap (value a) (sym e ∙ f)
