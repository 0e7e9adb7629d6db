-- ===== src/Store/Changes.antt =====
-- The cells that store_put() and store_del() of daemon/store.c insert and delete.
use infod.Prelude.{
  ◌&&◌, ℕ, zero, suc, ◌+◌, ◌≡◌, refl, sym, ◌∙◌, ap, pos, negsuc, is_positive, Bool, true, false,
  Option, none, some, List, [], ◌∷◌, ◌++◌, ltb, if◌then◌else◌, All, take, drop, arith, inl, inr,
}
use mathlib.Core.Path.{subst}
use mathlib.Core.Bool.{false≢true}
use infod.Match.{cstr}
use infod.Store.{
  strcmp, is_zero, store_find, store_eq, store_get, with_cell, store_index_insert,
  store_index_delete,
}
use infod.Store.Order.{Below, strcmp_cases}
use infod.Store.Sorted.{
  IsSorted, find_entry, find_above, raise, place, place-nil, place-zero, place-suc,
  store_find-place, store_eq-zero, store_eq-suc, store_get-find_entry,
}

All-insert :
    (P : List ℕ → Type 0) (i : ℕ) (e : List ℕ) (es : List (List ℕ))
    → P e
    → All P es
    → All P (with_cell i e es)
unfolding with_cell
All-insert P zero e es p h = (p, h)
All-insert P (suc i) e [] p h = (p, h)
All-insert P (suc i) e (x ∷ es) p h = (h.0, All-insert P i e es p h.1)

delete-zero : (x : List ℕ) (es : List (List ℕ)) → store_index_delete 0 (x ∷ es) ≡ es
unfolding store_index_delete
delete-zero x es = refl

delete-suc :
    (i : ℕ) (x : List ℕ) (es : List (List ℕ))
    → store_index_delete (suc i) (x ∷ es) ≡ x ∷ store_index_delete i es
unfolding store_index_delete
delete-suc i x es =
    let n : suc i + 1 ≡ suc (i + 1) = omega arith in ap (λ n. x ∷ (take i es ++ drop n (x ∷ es))) n

delete-nil : (i : ℕ) → store_index_delete i [] ≡ []
unfolding store_index_delete
delete-nil i = rw (take-nil i, drop-nil (i + 1)) refl
  where
    take-nil : (n : ℕ) → take {A = List ℕ} n [] ≡ []
    take-nil zero = refl
    take-nil (suc n) = refl

    drop-nil : (n : ℕ) → drop {A = List ℕ} n [] ≡ []
    drop-nil zero = refl
    drop-nil (suc n) = refl

All-delete :
    (P : List ℕ → Type 0) (i : ℕ) (es : List (List ℕ)) → All P es → All P (store_index_delete i es)
All-delete P i [] h = subst (All P) (sym (delete-nil i)) tt
All-delete P zero (x ∷ es) h = subst (All P) (sym (delete-zero x es)) h.1
All-delete P (suc i) (x ∷ es) h =
    subst (All P) (sym (delete-suc i x es)) (h.0, All-delete P i es h.1)

insert-suc :
    (i : ℕ) (e x : List ℕ) (es : List (List ℕ))
    → with_cell (suc i) e (x ∷ es) ≡ x ∷ with_cell i e es
unfolding with_cell
insert-suc i e x es = refl

abbrev pub is_key : List ℕ → List ℕ → Bool
is_key key e = is_zero (strcmp key (cstr e))

-- The index has a new entry, and is otherwise as it was.
pub record IsInserted (e : List ℕ) (index index' : List (List ℕ)) : Type 0 where
  pub sorted : IsSorted index'
  pub lookup :
      (key : List ℕ)
      → find_entry key index' ≡ (if is_key key e then some e else find_entry key index)

insert-zero : (e : List ℕ) (es : List (List ℕ)) → with_cell 0 e es ≡ e ∷ es
unfolding with_cell
insert-zero e es = refl

-- Behind an entry x with a smaller key, and so with it.
lookup_cons :
    (k x : List ℕ) (o : Option (List ℕ)) (es es' : List (List ℕ)) (key : List ℕ)
    → Below (cstr x) k
    → find_entry key es' ≡ (if is_zero (strcmp key k) then o else find_entry key es)
    → find_entry key (x ∷ es') ≡ (if is_zero (strcmp key k) then o else find_entry key (x ∷ es))
lookup_cons k x o es es' key l h = elim (strcmp_cases key (cstr x)) [
  | inl (q, z) ↦
      let other : strcmp key k ≡ negsuc 0 = ap (λ t. strcmp t k) q ∙ l in rw (z, other) refl
  | inr (inl (m, i)) ↦ rw m h
  | inr (inr (m, i)) ↦ rw i h
]

insert-IsInserted :
    (e : List ℕ) (index : List (List ℕ))
    → IsSorted index
    → store_eq index (place (cstr e) index) (cstr e) ≡ false
    → IsInserted e index (with_cell (place (cstr e) index) e index)
insert-IsInserted e [] h new =
    rw (place-nil (cstr e))
      (rw (insert-zero e []) (record { sorted = (tt, tt); lookup = λ key. refl }))
insert-IsInserted e (x ∷ es) h new = elim (strcmp_cases (cstr e) (cstr x)) [
  | inl (q, z) ↦
      let first = place-zero (cstr e) x es (ap is_positive z) in
      let old : store_eq (x ∷ es) (place (cstr e) (x ∷ es)) (cstr e) ≡ true =
        rw first (store_eq-zero (cstr e) x es ∙ ap is_zero z) in
      absurd (false≢true (sym new ∙ old))
  | inr (inl (l, g)) ↦ rw (place-zero (cstr e) x es (ap is_positive l)) (
      rw (insert-zero e (x ∷ es))
        (record { sorted = ((l, raise (cstr e) (cstr x) es l h.0), h); lookup = λ key. refl }))
  | inr (inr (l, g)) ↦
      let i = place (cstr e) es in
      let next = place-suc (cstr e) x es (ap is_positive g) in
      let new' : store_eq es i (cstr e) ≡ false =
        sym (store_eq-suc (cstr e) x es i)
        ∙ ap (λ n. store_eq (x ∷ es) n (cstr e)) (sym next)
        ∙ new in
      let k = insert-IsInserted e es h.1 new' in
      rw next (
        rw (insert-suc i e x es) (record {
          sorted = (All-insert (λ f. Below (cstr x) (cstr f)) i e es l h.0, k.sorted);
          lookup = λ key. lookup_cons (cstr e) x (some e) es _ key l (k.lookup key);
        }))
]

nothing : (k : List ℕ) (i : ℕ) → store_eq [] i k ≡ false
unfolding store_eq
nothing k i = let outside : ltb i 0 ≡ false = ground arith in rw outside refl

-- The entry of the key is gone, and the index is otherwise as it was.
pub record IsDeleted (k : List ℕ) (index index' : List (List ℕ)) : Type 0 where
  pub sorted : IsSorted index'
  pub lookup :
      (key : List ℕ)
      → find_entry key index' ≡ (if is_zero (strcmp key k) then none else find_entry key index)

delete-IsDeleted :
    (k : List ℕ) (index : List (List ℕ))
    → IsSorted index
    → store_eq index (place k index) k ≡ true
    → IsDeleted k index (store_index_delete (place k index) index)
delete-IsDeleted k [] h old = absurd (false≢true (sym (nothing k (place k [])) ∙ old))
delete-IsDeleted k (x ∷ es) h old = elim (strcmp_cases k (cstr x)) [
  | inl (q, z) ↦
      rw (place-zero k x es (ap is_positive z))
        (rw (delete-zero x es) (record { sorted = h.1; lookup = λ key. behind key q }))
  | inr (inl (l, g)) ↦
      let first = place-zero k x es (ap is_positive l) in
      let new : store_eq (x ∷ es) (place k (x ∷ es)) k ≡ false =
        rw first (store_eq-zero k x es ∙ ap is_zero l) in
      absurd (false≢true (sym new ∙ old))
  | inr (inr (l, g)) ↦
      let i = place k es in
      let next = place-suc k x es (ap is_positive g) in
      let old' : store_eq es i k ≡ true =
        sym (store_eq-suc k x es i) ∙ ap (λ n. store_eq (x ∷ es) n k) (sym next) ∙ old in
      let d = delete-IsDeleted k es h.1 old' in
      rw next (
        rw (delete-suc i x es) (record {
          sorted = (All-delete (λ f. Below (cstr x) (cstr f)) i es h.0, d.sorted);
          lookup = λ key. lookup_cons k x none es _ key l (d.lookup key);
        }))
]
  where
    behind :
        (key : List ℕ)
        → k ≡ cstr x
        → find_entry key es ≡ (if is_zero (strcmp key k) then none else find_entry key (x ∷ es))
    behind key q = elim (strcmp_cases key (cstr x)) [
      | inl (p, z) ↦
          let same : strcmp key k ≡ pos 0 = ap (strcmp key) q ∙ z in
          rw same (find_above key es (subst (λ t. All (λ f. Below t (cstr f)) es) (sym p) h.0))
      | inr (inl (m, i)) ↦ rw (ap (strcmp key) q ∙ m) (rw m refl)
      | inr (inr (m, i)) ↦ rw (ap (strcmp key) q ∙ i) (rw i refl)
    ]

some_inj : {i j : ℕ} → some i ≡ some j → i ≡ j
some_inj e = grind (arith, e)

-- What a look-up finds if it is changed to `e`, and otherwise.
abbrev pub changed : Bool → Option (List ℕ) → Option (Option (List ℕ)) → Option (Option (List ℕ))
changed true e o = some e
changed false e o = o

changed-some : (b : Bool) (e o : Option (List ℕ)) → some (if b then e else o) ≡ changed b e (some o)
changed-some true e o = refl
changed-some false e o = refl

-- In a sorted index without the key of `e`, store_index_insert() at the place that store_find() gives
-- succeeds if store_index_ensure() does, and keeps the order: store_get() then finds `e` by its key, and
-- by any other key what it found before. If store_index_ensure() fails, it returns -1 and every look-up
-- is as before.
pub store_index_insert-store_get :
    (ensured : Bool) (e : List ℕ) (i : ℕ) (index : List (List ℕ))
    → IsSorted index
    → store_find (cstr e) index ≡ some i
    → store_eq index i (cstr e) ≡ false
    → (let r = store_index_insert ensured i e index in
        (r.0 ≡ ensured)
        × IsSorted r.1
        × ((key : List ℕ)
            → store_get r.1 key ≡ changed (ensured && is_key key e) (some e) (store_get index key)))
unfolding store_index_insert
store_index_insert-store_get false e i index h f new = (refl, h, λ key. refl)
store_index_insert-store_get true e i index h f new =
    let here : place (cstr e) index ≡ i = some_inj (sym (store_find-place (cstr e) index h) ∙ f) in
    let k = insert-IsInserted e index h (ap (λ n. store_eq index n (cstr e)) here ∙ new) in
    let k' = subst (λ n. IsInserted e index (with_cell n e index)) here k in
    (
      refl,
      k'.sorted,
      λ key.
          store_get-find_entry key (with_cell i e index) k'.sorted
          ∙ ap some (k'.lookup key)
          ∙ changed-some (is_key key e) (some e) (find_entry key index)
          ∙ ap (changed (is_key key e) (some e)) (sym (store_get-find_entry key index h)),
    )

-- In a sorted index with the key, store_index_delete() at the place that store_find() gives keeps the
-- order: store_get() then finds nothing by the key, and by any other key what it found before.
pub store_index_delete-store_get :
    (k : List ℕ) (i : ℕ) (index : List (List ℕ))
    → IsSorted index
    → store_find k index ≡ some i
    → store_eq index i k ≡ true
    → IsSorted (store_index_delete i index)
      × ((key : List ℕ)
          → store_get (store_index_delete i index) key
            ≡ changed (is_zero (strcmp key k)) none (store_get index key))
store_index_delete-store_get k i index h f old =
    let here : place k index ≡ i = some_inj (sym (store_find-place k index h) ∙ f) in
    let d = delete-IsDeleted k index h (ap (λ n. store_eq index n k) here ∙ old) in
    let d' = subst (λ n. IsDeleted k index (store_index_delete n index)) here d in
    (
      d'.sorted,
      λ key.
          store_get-find_entry key (store_index_delete i index) d'.sorted
          ∙ ap some (d'.lookup key)
          ∙ changed-some (is_zero (strcmp key k)) none (find_entry key index)
          ∙ ap (changed (is_zero (strcmp key k)) none) (sym (store_get-find_entry key index h)),
    )
