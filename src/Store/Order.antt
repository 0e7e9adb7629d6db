-- ===== src/Store/Order.antt =====
-- strcmp() is a total order of texts.
use infod.Prelude.{
  ℕ, ◌<◌, ◌≡◌, ◌≢◌, ◌⊎◌, refl, sym, ◌∙◌, pos, negsuc, true, false, List, [], ◌∷◌, ltb, ◌==◌, arith,
  Bool-cases, inl, inr, ltb→lt, lt→ltb,
}
use infod.Store.{strcmp}

abbrev pub Below : List ℕ → List ℕ → Type 0
Below s t = strcmp s t ≡ negsuc 0

-- The branches of one step.
step_equal : (a b : ℕ) (s t : List ℕ) → a ≡ b → strcmp (a ∷ s) (b ∷ t) ≡ strcmp s t
unfolding strcmp
step_equal a b s t e = let same : (a == b) ≡ true = ground (arith, e) in rw same refl

step-Below : (a b : ℕ) (s t : List ℕ) → a < b → Below (a ∷ s) (b ∷ t)
unfolding strcmp
step-Below a b s t l =
    let other : (a == b) ≡ false = ground (arith, l) in
    let less : ltb a b ≡ true = lt→ltb a b l in rw (other, less) refl

step_above : (a b : ℕ) (s t : List ℕ) → b < a → strcmp (a ∷ s) (b ∷ t) ≡ pos 1
unfolding strcmp
step_above a b s t l =
    let other : (a == b) ≡ false = ground (arith, l) in
    let less : ltb a b ≡ false = ground (arith, l) in rw (other, less) refl

compared : (a b : ℕ) → (a ≡ b) ⊎ ((a < b) ⊎ (b < a))
compared a b = elim (Bool-cases (ltb a b)) [
  | inl e ↦ inr (inl (ltb→lt a b e))
  | inr e ↦ elim (Bool-cases (ltb b a)) [
    | inl f ↦ inr (inr (ltb→lt b a f))
    | inr f ↦ inl (ground (arith, e, f))
  ]
]

-- Two texts are the same, or one is below the other.
pub strcmp_cases :
    (s t : List ℕ)
    → ((s ≡ t) × (strcmp s t ≡ pos 0))
      ⊎ ((Below s t × (strcmp t s ≡ pos 1)) ⊎ (Below t s × (strcmp s t ≡ pos 1)))
unfolding strcmp
strcmp_cases [] [] = inl (refl, refl)
strcmp_cases [] (b ∷ t) = inr (inl (refl, refl))
strcmp_cases (a ∷ s) [] = inr (inr (refl, refl))
strcmp_cases (a ∷ s) (b ∷ t) = elim (compared a b) [
  | inl e ↦ elim (strcmp_cases s t) [
    | inl (q, z) ↦ inl (rw (e, q) refl, step_equal a b s t e ∙ z)
    | inr (inl (l, g)) ↦ inr (inl (step_equal a b s t e ∙ l, step_equal b a t s (sym e) ∙ g))
    | inr (inr (l, g)) ↦ inr (inr (step_equal b a t s (sym e) ∙ l, step_equal a b s t e ∙ g))
  ]
  | inr (inl l) ↦ inr (inl (step-Below a b s t l, step_above b a t s l))
  | inr (inr l) ↦ inr (inr (step-Below b a t s l, step_above a b s t l))
]

pub strcmp_refl : (s : List ℕ) → strcmp s s ≡ pos 0
unfolding strcmp
strcmp_refl [] = refl
strcmp_refl (a ∷ s) = step_equal a a s s refl ∙ strcmp_refl s

pub pos-ne-negsuc : {n m : ℕ} → pos n ≢ negsuc m
pos-ne-negsuc e = grind (arith, e)

-- What a text below another begins with.
Below-cases : (a b : ℕ) (s t : List ℕ) → Below (a ∷ s) (b ∷ t) → (a < b) ⊎ ((a ≡ b) × Below s t)
Below-cases a b s t h = elim (compared a b) [
  | inl e ↦ inr (e, sym (step_equal a b s t e) ∙ h)
  | inr (inl l) ↦ inl l
  | inr (inr l) ↦ absurd (pos-ne-negsuc (sym (step_above a b s t l) ∙ h))
]

pub Below-trans : (s t u : List ℕ) → Below s t → Below t u → Below s u
unfolding strcmp
Below-trans s [] u h g = absurd (not_below_nil s h)
  where
    not_below_nil : (s : List ℕ) → Below s [] → ⊥
    not_below_nil [] e = pos-ne-negsuc e
    not_below_nil (a ∷ s) e = pos-ne-negsuc e
Below-trans [] (b ∷ t) [] h g = absurd (pos-ne-negsuc g)
Below-trans [] (b ∷ t) (c ∷ u) h g = refl
Below-trans (a ∷ s) (b ∷ t) [] h g = absurd (pos-ne-negsuc g)
Below-trans (a ∷ s) (b ∷ t) (c ∷ u) h g = elim (Below-cases a b s t h) [
  | inl l ↦ elim (Below-cases b c t u g) [
    | inl m ↦ step-Below a c s u (omega (arith, l, m))
    | inr (e, m) ↦ step-Below a c s u (omega (arith, l, e))
  ]
  | inr (d, l) ↦ elim (Below-cases b c t u g) [
    | inl m ↦ step-Below a c s u (omega (arith, d, m))
    | inr (e, m) ↦ step_equal a c s u (d ∙ e) ∙ Below-trans s t u l m
  ]
]
