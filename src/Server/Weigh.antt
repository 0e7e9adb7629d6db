-- ===== src/Server/Weigh.antt =====
-- The sums over the sockets of daemon/server.c that its invariants are stated with, under the changes
-- that its operations make to the list.
use infod.Prelude.{
  ℕ, zero, suc, ◌+◌, ◌-◌, ◌≤◌, ◌<◌, ◌≡◌, refl, none, some, List, [], ◌∷◌, ◌++◌, map, ltb,
  if◌then◌else◌, length, get_elem?, set, take, arith, length-take, ltb→lt, ap, Bool-cases, inl, inr,
  ◌∙◌,
}

module _ {A : Type 0} where
  abbrev pub weigh : (A → ℕ) → List A → ℕ
  weigh f [] = 0
  weigh f (x ∷ xs) = f x + weigh f xs

  pub weigh-append : (f : A → ℕ) (xs ys : List A) → weigh f (xs ++ ys) ≡ weigh f xs + weigh f ys
  weigh-append f [] ys = omega arith
  weigh-append f (x ∷ xs) ys = omega (arith, weigh-append f xs ys)

  pub weigh-set :
      (f : A → ℕ) (xs : List A) (i : ℕ) (x y : A)
      → get_elem? xs i ≡ some x
      → weigh f (set xs i y) + f x ≡ weigh f xs + f y
  weigh-set f [] i x y h = grind arith
  weigh-set f (z ∷ xs) zero x y h = grind arith
  weigh-set f (z ∷ xs) (suc i) x y h = omega (arith, weigh-set f xs i x y h)

  pub length-set : (xs : List A) (i : ℕ) (y : A) → length (set xs i y) ≡ length xs
  length-set [] i y = refl
  length-set (x ∷ xs) zero y = refl
  length-set (x ∷ xs) (suc i) y = omega (arith, length-set xs i y)

  -- A weight that is not raised at any entry.
  pub weigh-map-le :
      (f : A → ℕ) (g : A → A) (xs : List A)
      → ((x : A) → f (g x) ≤ f x)
      → weigh f (map g xs) ≤ weigh f xs
  weigh-map-le f g [] h = omega arith
  weigh-map-le f g (x ∷ xs) h = omega (arith, weigh-map-le f g xs h, h x)

  pub weigh-map :
      (f : A → ℕ) (g : A → A) (xs : List A)
      → ((x : A) → f (g x) ≡ f x)
      → weigh f (map g xs) ≡ weigh f xs
  weigh-map f g [] h = refl
  weigh-map f g (x ∷ xs) h = omega (arith, weigh-map f g xs h, h x)

  pub weigh-take-le : (f : A → ℕ) (n : ℕ) (xs : List A) → weigh f (take n xs) ≤ weigh f xs
  weigh-take-le f zero xs = omega arith
  weigh-take-le f (suc n) [] = omega arith
  weigh-take-le f (suc n) (x ∷ xs) = omega (arith, weigh-take-le f n xs)

  pub length-map : (g : A → A) (xs : List A) → length (map g xs) ≡ length xs
  length-map g [] = refl
  length-map g (x ∷ xs) = omega (arith, length-map g xs)

  pub get_elem?-some : (xs : List A) (i : ℕ) → i < length xs → (x : A) × (get_elem? xs i ≡ some x)
  get_elem?-some [] i h = absurd (omega arith)
  get_elem?-some (x ∷ xs) zero h = (x, refl)
  get_elem?-some (x ∷ xs) (suc i) h = get_elem?-some xs i (omega arith)

  pub get_elem?-lt : (xs : List A) (i : ℕ) (x : A) → get_elem? xs i ≡ some x → i < length xs
  get_elem?-lt [] i x h = grind arith
  get_elem?-lt (y ∷ xs) zero x h = omega arith
  get_elem?-lt (y ∷ xs) (suc i) x h = omega (arith, get_elem?-lt xs i x h)

  pub get_elem?-none : (xs : List A) (i : ℕ) → get_elem? xs i ≡ none → length xs ≤ i
  get_elem?-none [] i h = omega arith
  get_elem?-none (y ∷ xs) zero h = grind arith
  get_elem?-none (y ∷ xs) (suc i) h = omega (arith, get_elem?-none xs i h)

  -- One more item is looked at.
  pub weigh-take-suc :
      (f : A → ℕ) (xs : List A) (i : ℕ) (x : A)
      → get_elem? xs i ≡ some x
      → weigh f (take (suc i) xs) ≡ weigh f (take i xs) + f x
  weigh-take-suc f [] i x h = grind arith
  weigh-take-suc f (y ∷ xs) zero x h = grind arith
  weigh-take-suc f (y ∷ xs) (suc i) x h = omega (arith, weigh-take-suc f xs i x h)

  pub take-set : (xs : List A) (i : ℕ) (y : A) → take i (set xs i y) ≡ take i xs
  take-set [] i y = refl
  take-set (x ∷ xs) zero y = refl
  take-set (x ∷ xs) (suc i) y = ap (λ l. x ∷ l) (take-set xs i y)

  pub get_elem?-set :
      (xs : List A) (i : ℕ) (y : A) → i < length xs → get_elem? (set xs i y) i ≡ some y
  get_elem?-set [] i y h = absurd (omega arith)
  get_elem?-set (x ∷ xs) zero y h = refl
  get_elem?-set (x ∷ xs) (suc i) y h = get_elem?-set xs i y (omega arith)

  pub take-append : (n : ℕ) (xs ys : List A) → n ≤ length xs → take n (xs ++ ys) ≡ take n xs
  take-append zero xs ys h = refl
  take-append (suc n) [] ys h = absurd (omega arith)
  take-append (suc n) (x ∷ xs) ys h = ap (λ l. x ∷ l) (take-append n xs ys (omega arith))

  pub take-map : (n : ℕ) (g : A → A) (xs : List A) → take n (map g xs) ≡ map g (take n xs)
  take-map zero g xs = refl
  take-map (suc n) g [] = refl
  take-map (suc n) g (x ∷ xs) = ap (λ l. g x ∷ l) (take-map n g xs)

  pub take-length : (n : ℕ) (xs : List A) → length xs ≤ n → take n xs ≡ xs
  take-length zero [] h = refl
  take-length zero (x ∷ xs) h = absurd (omega arith)
  take-length (suc n) [] h = refl
  take-length (suc n) (x ∷ xs) h = ap (λ l. x ∷ l) (take-length n xs (omega arith))

  -- The list without the item at `i`, whose place the last item takes.
  abbrev pub moved : ℕ → A → List A → List A
  moved i z xs = take (length xs - 1) (if ltb i (length xs - 1) then set xs i z else xs)

  take-take : (n m : ℕ) (xs : List A) → n ≤ m → take n (take m xs) ≡ take n xs
  take-take zero m xs h = refl
  take-take (suc n) zero xs h = absurd (omega arith)
  take-take (suc n) (suc m) [] h = refl
  take-take (suc n) (suc m) (x ∷ xs) h = ap (λ l. x ∷ l) (take-take n m xs (omega arith))

  get_elem?-set_ne :
      (xs : List A) (i j : ℕ) (y : A) → i < j → get_elem? (set xs i y) j ≡ get_elem? xs j
  get_elem?-set_ne [] i j y h = refl
  get_elem?-set_ne (x ∷ xs) zero zero y h = absurd (omega arith)
  get_elem?-set_ne (x ∷ xs) zero (suc j) y h = refl
  get_elem?-set_ne (x ∷ xs) (suc i) zero y h = absurd (omega arith)
  get_elem?-set_ne (x ∷ xs) (suc i) (suc j) y h = get_elem?-set_ne xs i j y (omega arith)

  pub length-moved : (i : ℕ) (z : A) (xs : List A) → length (moved i z xs) ≡ length xs - 1
  length-moved i z xs = elim (Bool-cases (ltb i (length xs - 1))) [
    | inl e ↦ rw e (omega (arith, length-take (length xs - 1) (set xs i z), length-set xs i z))
    | inr e ↦ rw e (omega (arith, length-take (length xs - 1) xs))
  ]

  weigh-but_last :
      (f : A → ℕ) (n : ℕ) (z : A) (xs : List A)
      → suc n ≡ length xs
      → get_elem? xs n ≡ some z
      → weigh f (take n xs) + f z ≡ weigh f xs
  weigh-but_last f n z xs e h =
      omega (arith, weigh-take-suc f xs n z h, ap (weigh f) (take-length (suc n) xs (omega arith)))

  -- The weight of the removed item goes.
  pub weigh-moved :
      (f : A → ℕ) (i : ℕ) (x z : A) (xs : List A)
      → get_elem? xs i ≡ some x
      → get_elem? xs (length xs - 1) ≡ some z
      → weigh f (moved i z xs) + f x ≡ weigh f xs
  weigh-moved f i x z xs h l = elim (Bool-cases (ltb i (length xs - 1))) [
    | inl e ↦
        let n = length xs - 1 in
        let lt = ltb→lt i n e in
        rw e (
          omega (
            arith,
            weigh-but_last f n z (set xs i z) (omega (arith, length-set xs i z, lt))
                (get_elem?-set_ne xs i n z lt ∙ l),
            weigh-set f xs i x z h,
          ))
    | inr e ↦
        let le = get_elem?-lt xs i x h in
        let same : i ≡ length xs - 1 = ground (arith, e, le) in
        let is : x ≡ z = grind (arith, h, l, same) in
        rw e (omega (arith, weigh-but_last f (length xs - 1) z xs (omega arith) l, ap f is))
  ]

  pub take-moved : (i : ℕ) (z : A) (xs : List A) → i < length xs → take i (moved i z xs) ≡ take i xs
  take-moved i z xs h = elim (Bool-cases (ltb i (length xs - 1))) [
    | inl e ↦ rw e (take-take i (length xs - 1) (set xs i z) (omega arith) ∙ take-set xs i z)
    | inr e ↦ rw e (take-take i (length xs - 1) xs (omega arith))
  ]

  pub weigh-get_elem? :
      (f : A → ℕ) (xs : List A) (i : ℕ) (x : A) → get_elem? xs i ≡ some x → f x ≤ weigh f xs
  weigh-get_elem? f [] i x h = grind arith
  weigh-get_elem? f (y ∷ xs) zero x h = grind arith
  weigh-get_elem? f (y ∷ xs) (suc i) x h = omega (arith, weigh-get_elem? f xs i x h)
