-- ===== src/Store/Sorted.antt =====
-- The index of daemon/store.c in the order of its keys.
use infod.Prelude.{
  ℕ, zero, suc, ◌≤◌, ◌<◌, ◌≡◌, refl, sym, ap, is_positive, is_negative, true, false, Option, none,
  some, List, [], ◌∷◌, ltb, if◌then◌else◌, All, length, get_elem?, arith, inl, inr,
}
use mathlib.Core.Path.{subst}
use infod.Match.{cstr}
use infod.Store.{strcmp, key_at, is_zero, store_find, store_eq, store_get}
use infod.Store.Order.{Below, strcmp_cases, Below-trans}
use infod.Store.Search.{IsPlace, store_find-IsPlace}

abbrev pub IsSorted : List (List ℕ) → Type 0
IsSorted [] = Unit
IsSorted (e ∷ es) = All (λ f. Below (cstr e) (cstr f)) es × IsSorted es

-- The entry of a key, by looking at each.
abbrev pub find_entry : List ℕ → List (List ℕ) → Option (List ℕ)
find_entry key [] = none
find_entry key (e ∷ es) = if is_zero (strcmp key (cstr e)) then some e else find_entry key es

all_above :
    (key : List ℕ) (es : List (List ℕ)) (m : ℕ)
    → All (λ f. Below key (cstr f)) es
    → m < length es
    → Below key (key_at es m)
unfolding key_at
all_above key [] m h l = absurd (omega arith)
all_above key (e ∷ es) zero h l = h.0
all_above key (e ∷ es) (suc m) h l = all_above key es m h.1 (omega arith)

pub raise :
    (key low : List ℕ) (es : List (List ℕ))
    → Below key low
    → All (λ f. Below low (cstr f)) es
    → All (λ f. Below key (cstr f)) es
raise key low [] b h = tt
raise key low (e ∷ es) b h = (Below-trans key low (cstr e) b h.0, raise key low es b h.1)

-- No entry is below the key.
at_start :
    (key : List ℕ) (e : List ℕ) (es : List (List ℕ))
    → is_positive (strcmp key (cstr e)) ≡ false
    → All (λ f. Below key (cstr f)) es
    → IsPlace key (e ∷ es) 0
unfolding key_at
at_start key e es p a = record {
  inside = omega arith;
  before = λ m l. absurd (omega (arith, l));
  from = from_start;
  behind = behind_start;
}
  where
    from_start :
        (m : ℕ) → 0 ≤ m → m < length (e ∷ es) → is_positive (strcmp key (key_at (e ∷ es) m)) ≡ false
    from_start zero l k = p
    from_start (suc m) l k = ap is_positive (all_above key es m a (omega (arith, k)))

    behind_start :
        (m : ℕ) → 0 < m → m < length (e ∷ es) → is_negative (strcmp key (key_at (e ∷ es) m)) ≡ true
    behind_start zero l k = absurd (omega (arith, l))
    behind_start (suc m) l k = ap is_negative (all_above key es m a (omega (arith, k)))

further :
    (key : List ℕ) (e : List ℕ) (es : List (List ℕ)) (r : ℕ)
    → is_positive (strcmp key (cstr e)) ≡ true
    → IsPlace key es r
    → IsPlace key (e ∷ es) (suc r)
unfolding key_at
further key e es r p h = record {
  inside = omega (arith, h.inside);
  before = before_next;
  from = from_next;
  behind = behind_next;
}
  where
    before_next : (m : ℕ) → m < suc r → is_positive (strcmp key (key_at (e ∷ es) m)) ≡ true
    before_next zero l = p
    before_next (suc m) l = h.before m (omega (arith, l))

    from_next :
        (m : ℕ)
        → suc r ≤ m
        → m < length (e ∷ es)
        → is_positive (strcmp key (key_at (e ∷ es) m)) ≡ false
    from_next zero l k = absurd (omega (arith, l))
    from_next (suc m) l k = h.from m (omega (arith, l)) (omega (arith, k))

    behind_next :
        (m : ℕ)
        → suc r < m
        → m < length (e ∷ es)
        → is_negative (strcmp key (key_at (e ∷ es) m)) ≡ true
    behind_next zero l k = absurd (omega (arith, l))
    behind_next (suc m) l k = h.behind m (omega (arith, l)) (omega (arith, k))

-- Every key has a place in a sorted index.
pub place : List ℕ → List (List ℕ) → ℕ
place key [] = 0
place key (e ∷ es) =
    let rest = place key es in if is_positive (strcmp key (cstr e)) then suc rest else 0

pub place-zero :
    (key e : List ℕ) (es : List (List ℕ))
    → is_positive (strcmp key (cstr e)) ≡ false
    → place key (e ∷ es) ≡ 0
unfolding place
place-zero key e es h = rw h refl

pub place-suc :
    (key e : List ℕ) (es : List (List ℕ))
    → is_positive (strcmp key (cstr e)) ≡ true
    → place key (e ∷ es) ≡ suc (place key es)
unfolding place
place-suc key e es h = rw h refl

pub place-nil : (key : List ℕ) → place key [] ≡ 0
unfolding place
place-nil key = refl

pub place-IsPlace :
    (key : List ℕ) (index : List (List ℕ)) → IsSorted index → IsPlace key index (place key index)
unfolding place
place-IsPlace key [] h = record {
  inside = omega arith;
  before = λ m l. absurd (omega (arith, l));
  from = λ m l k. absurd (omega (arith, k));
  behind = λ m l k. absurd (omega (arith, k));
}
place-IsPlace key (e ∷ es) h = elim (strcmp_cases key (cstr e)) [
  | inl (q, z) ↦ rw z (
      at_start key e es (ap is_positive z)
        (subst (λ k. All (λ f. Below k (cstr f)) es) (sym q) h.0))
  | inr (inl (l, g)) ↦ rw l (at_start key e es (ap is_positive l) (raise key (cstr e) es l h.0))
  | inr (inr (l, g)) ↦
      rw g (further key e es (place key es) (ap is_positive g) (place-IsPlace key es h.1))
]

pub store_find-place :
    (key : List ℕ) (index : List (List ℕ))
    → IsSorted index
    → store_find key index ≡ some (place key index)
store_find-place key index h =
    store_find-IsPlace key index (place key index) (place-IsPlace key index h)

pub find_above :
    (key : List ℕ) (es : List (List ℕ))
    → All (λ f. Below key (cstr f)) es
    → find_entry key es ≡ none
find_above key [] h = refl
find_above key (e ∷ es) h = rw h.0 (find_above key es h.1)

abbrev pub get_at : List ℕ → List (List ℕ) → ℕ → Option (List ℕ)
get_at key index i = if store_eq index i key then get_elem? index i else none

pub store_eq-suc :
    (key e : List ℕ) (es : List (List ℕ)) (r : ℕ)
    → store_eq (e ∷ es) (suc r) key ≡ store_eq es r key
unfolding store_eq key_at
store_eq-suc key e es r =
    let same : ltb (suc r) (suc (length es)) ≡ ltb r (length es) = ground arith in rw same refl

pub store_eq-zero :
    (key e : List ℕ) (es : List (List ℕ)) → store_eq (e ∷ es) 0 key ≡ is_zero (strcmp key (cstr e))
unfolding store_eq key_at
store_eq-zero key e es =
    let inside : ltb 0 (suc (length es)) ≡ true = ground arith in rw inside refl

pub get_at-place :
    (key : List ℕ) (index : List (List ℕ))
    → IsSorted index
    → get_at key index (place key index) ≡ find_entry key index
unfolding place
get_at-place key [] h = unfold store_eq in refl
get_at-place key (e ∷ es) h = elim (strcmp_cases key (cstr e)) [
  | inl (q, z) ↦ rw z (rw (store_eq-zero key e es) (rw z refl))
  | inr (inl (l, g)) ↦
      rw l
        (rw (store_eq-zero key e es) (rw l (sym (find_above key es (raise key (cstr e) es l h.0)))))
  | inr (inr (l, g)) ↦ rw g (rw (store_eq-suc key e es (place key es)) (get_at-place key es h.1))
]

-- In an index that is sorted by its keys, the binary search of store_get() ends within a round for each
-- entry and one more, and finds what looking at each entry finds.
pub store_get-find_entry :
    (key : List ℕ) (index : List (List ℕ))
    → IsSorted index
    → store_get index key ≡ some (find_entry key index)
unfolding store_get
store_get-find_entry key index h =
    rw (store_find-place key index h, store_get) (ap some (get_at-place key index h))
