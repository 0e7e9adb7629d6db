-- ===== src/Store/Search.antt =====
-- The binary search of daemon/store.c finds the place of a key.
use infod.Prelude.{
  ℕ, zero, suc, ◌+◌, ◌/◌, ◌≤◌, ◌<◌, ◌≡◌, refl, sym, ◌∙◌, ap, ℤ, pos, negsuc, is_positive,
  is_negative, true, false, some, List, ltb, ltb→lt, leb, leb→le, length, arith, Bool-cases, inl,
  inr,
}
use mathlib.Core.Bool.{false≢true}
use infod.Store.{strcmp, key_at, past_smaller, find_loop, store_find}

-- The entries before place r have smaller keys, those behind it larger ones, and the one at r has not
-- a smaller one.
pub record IsPlace (key : List ℕ) (index : List (List ℕ)) (r : ℕ) : Type 0 where
  pub inside : r ≤ length index
  pub before : (m : ℕ) → m < r → is_positive (strcmp key (key_at index m)) ≡ true
  pub from : (m : ℕ) → r ≤ m → m < length index → is_positive (strcmp key (key_at index m)) ≡ false
  pub behind : (m : ℕ) → r < m → m < length index → is_negative (strcmp key (key_at index m)) ≡ true

past_smaller-IsPlace :
    (key : List ℕ) (index : List (List ℕ)) (r b m : ℕ)
    → IsPlace key index r
    → b ≤ length index
    → m ≤ r
    → r ≤ m + 1
    → r ≤ b
    → past_smaller key index b m ≡ r
unfolding past_smaller
past_smaller-IsPlace key index r b m p lb lm lr rb = elim (Bool-cases (leb r m)) [
  | inl e ↦ elim (Bool-cases (ltb m b)) [
    | inl f ↦
        let no : is_positive (strcmp key (key_at index m)) ≡ false =
          p.from m (leb→le _ _ e) (omega (arith, ltb→lt _ _ f, lb)) in
        rw f (rw no (omega (arith, leb→le _ _ e, lm)))
    | inr f ↦ rw f (omega (arith, leb→le _ _ e, lm))
  ]
  | inr e ↦
      let small : m < r = ground (arith, e) in
      let yes : is_positive (strcmp key (key_at index m)) ≡ true = p.before m small in
      let inside : ltb m b ≡ true = ground (arith, small, rb) in
      rw inside (rw yes (omega (arith, small, lr)))
]

-- What a comparison at a place of the interval says of r.
at_equal :
    (key : List ℕ) (index : List (List ℕ)) (r m : ℕ)
    → IsPlace key index r
    → m < length index
    → strcmp key (key_at index m) ≡ pos 0
    → m ≡ r
at_equal key index r m p l e = elim (Bool-cases (ltb r m)) [
  | inl f ↦ absurd (false≢true (sym (ap is_negative e) ∙ p.behind m (ltb→lt _ _ f) l))
  | inr f ↦ elim (Bool-cases (ltb m r)) [
    | inl g ↦ absurd (false≢true (sym (ap is_positive e) ∙ p.before m (ltb→lt _ _ g)))
    | inr g ↦ ground (arith, f, g)
  ]
]

at_greater :
    (key : List ℕ) (index : List (List ℕ)) (r m n : ℕ)
    → IsPlace key index r
    → m < length index
    → strcmp key (key_at index m) ≡ pos (suc n)
    → m < r
at_greater key index r m n p l e = elim (Bool-cases (leb r m)) [
  | inl f ↦ absurd (false≢true (sym (p.from m (leb→le _ _ f) l) ∙ ap is_positive e))
  | inr f ↦ ground (arith, f)
]

at_less :
    (key : List ℕ) (index : List (List ℕ)) (r m n : ℕ)
    → IsPlace key index r
    → strcmp key (key_at index m) ≡ negsuc n
    → r ≤ m
at_less key index r m n p e = elim (Bool-cases (ltb m r)) [
  | inl f ↦ absurd (false≢true (sym (ap is_positive e) ∙ p.before m (ltb→lt _ _ f)))
  | inr f ↦ ground (arith, f)
]

by_order :
    (fuel : ℕ) (key : List ℕ) (index : List (List ℕ)) (r a b m : ℕ) (z : ℤ)
    → IsPlace key index r
    → m < b
    → b ≤ length index
    → r ≤ b
    → strcmp key (key_at index m) ≡ z
    → (m < r → find_loop fuel key index (m + 1) b ≡ some r)
    → (r ≤ m → find_loop fuel key index a m ≡ some r)
    → (elim z [
      | pos zero ↦ some (past_smaller key index b m)
      | pos (suc n) ↦ find_loop fuel key index (m + 1) b
      | negsuc n ↦ find_loop fuel key index a m
    ])
      ≡ some r
by_order fuel key index r a b m (pos zero) p i l h e high low =
    let here : m ≡ r = at_equal key index r m p (omega arith) e in
    ap some (past_smaller-IsPlace key index r b m p l (omega (arith, here)) (omega (arith, here)) h)
by_order fuel key index r a b m (pos (suc n)) p i l h e high low =
    high (at_greater key index r m n p (omega arith) e)
by_order fuel key index r a b m (negsuc n) p i l h e high low = low (at_less key index r m n p e)

find_loop-IsPlace :
    (fuel : ℕ) (key : List ℕ) (index : List (List ℕ)) (r a b : ℕ)
    → IsPlace key index r
    → a ≤ r
    → r ≤ b
    → b ≤ length index
    → b < a + fuel
    → find_loop fuel key index a b ≡ some r
unfolding find_loop
find_loop-IsPlace zero key index r a b p la lb l f = absurd (omega arith)
find_loop-IsPlace (suc fuel) key index r a b p la lb l f = elim (Bool-cases (leb ((a + b) / 2) a)) [
  | inl e ↦
      rw (e, find_loop)
        (ap some (
          past_smaller-IsPlace key index r b ((a + b) / 2) p l (omega (arith, leb→le _ _ e, la))
            (omega (arith, leb→le _ _ e, lb)) lb))
  | inr e ↦
      let above : a < (a + b) / 2 = ground (arith, e) in
      rw (e, find_loop)
        (by_order fuel key index r a b ((a + b) / 2) (strcmp key (key_at index ((a + b) / 2))) p
          (omega (arith, above)) l lb refl
          (λ h.
            find_loop-IsPlace fuel key index r ((a + b) / 2 + 1) b p (omega (arith, h)) lb l
              (omega (arith, above)))
          (λ h.
            find_loop-IsPlace fuel key index r a ((a + b) / 2) p la h (omega (arith, above))
              (omega (arith, above))))
]

-- In an index that is in order around the key, with r entries whose keys are smaller, store_find()
-- ends with r: the place of the key, or the place where it is to go.
pub store_find-IsPlace :
    (key : List ℕ) (index : List (List ℕ)) (r : ℕ)
    → IsPlace key index r
    → store_find key index ≡ some r
unfolding store_find
store_find-IsPlace key index r p =
    find_loop-IsPlace (length index + 1) key index r 0 (length index) p (omega arith) p.inside
      (omega arith) (omega arith)
