-- ===== src/Store/Tests.antt =====
-- The search of daemon/store.c at a concrete index.
use infod.Prelude.{
  ◌&&◌, ℕ, zero, suc, ◌≤◌, ◌<◌, ◌≡◌, refl, is_positive, is_negative, true, false, none, some, List,
  [], ◌∷◌, ◌++◌, arith,
}
use infod.Match.{cstr}
use infod.Proto.Text.{codes}
use infod.Store.{
  strcmp, key_at, is_zero, past_smaller, find_loop, store_find, store_eq, store_get,
  store_index_insert, store_index_delete,
}
use infod.Store.Sorted.{IsSorted, store_get-find_entry}
use infod.Store.Changes.{
  changed, is_key, store_index_insert-store_get, store_index_delete-store_get,
}
use infod.Store.Search.{IsPlace, store_find-IsPlace}

abbrev index : List (List ℕ)
index =
    (codes "beta" ++ (0 ∷ codes "1"))
    ∷ (codes "eta" ++ (0 ∷ codes "2"))
    ∷ (codes "zeta" ++ (0 ∷ codes "3"))
    ∷ []

before_eta : (m : ℕ) → m < 1 → is_positive (strcmp (codes "eta") (key_at index m)) ≡ true
unfolding strcmp key_at cstr
before_eta zero h = refl
before_eta (suc m) h = absurd (omega arith)

from_eta : (m : ℕ) → 1 ≤ m → m < 3 → is_positive (strcmp (codes "eta") (key_at index m)) ≡ false
unfolding strcmp key_at cstr
from_eta zero h l = absurd (omega arith)
from_eta (suc zero) h l = refl
from_eta (suc (suc zero)) h l = refl
from_eta (suc (suc (suc m))) h l = absurd (omega arith)

behind_eta : (m : ℕ) → 1 < m → m < 3 → is_negative (strcmp (codes "eta") (key_at index m)) ≡ true
unfolding strcmp key_at cstr
behind_eta zero h l = absurd (omega arith)
behind_eta (suc zero) h l = absurd (omega arith)
behind_eta (suc (suc zero)) h l = refl
behind_eta (suc (suc (suc m))) h l = absurd (omega arith)

eta-IsPlace : IsPlace (codes "eta") index 1
eta-IsPlace = record {
  inside = omega arith;
  before = before_eta;
  from = from_eta;
  behind = behind_eta;
}

store_find-IsPlace_example : store_find (codes "eta") index ≡ some 1
store_find-IsPlace_example = store_find-IsPlace (codes "eta") index 1 eta-IsPlace

store_runs :
    (store_get index (codes "eta") ≡ some (some (codes "eta" ++ (0 ∷ codes "2"))))
    × (store_get index (codes "et") ≡ some none)
    × (store_find (codes "theta") index ≡ some 2)
    × (store_index_delete 1 (store_index_insert true 1 (codes "x") index).1 ≡ index)
unfolding store_get store_index_insert store_index_delete cstr
store_runs = (refl, refl, refl, refl)

index-IsSorted : IsSorted index
unfolding strcmp cstr
index-IsSorted = ((refl, (refl, tt)), ((refl, tt), (tt, tt)))

store_get-find_entry_example :
    store_get index (codes "eta") ≡ some (some (codes "eta" ++ (0 ∷ codes "2")))
unfolding strcmp cstr
store_get-find_entry_example = store_get-find_entry (codes "eta") index index-IsSorted

abbrev theta : List ℕ
theta = codes "theta" ++ (0 ∷ codes "4")

store_index_insert-store_get_example :
    (let r = store_index_insert true 2 theta index in
      (r.0 ≡ true)
      × IsSorted r.1
      × ((key : List ℕ)
          → store_get r.1 key
            ≡ changed (true && is_key key theta) (some theta) (store_get index key)))
store_index_insert-store_get_example =
    store_index_insert-store_get true theta 2 index index-IsSorted
      (unfold store_find find_loop past_smaller key_at strcmp cstr in refl)
      (unfold store_eq key_at strcmp cstr in refl)

store_index_delete-store_get_example :
    IsSorted (store_index_delete 1 index)
    × ((key : List ℕ)
        → store_get (store_index_delete 1 index) key
          ≡ changed (is_zero (strcmp key (codes "eta"))) none (store_get index key))
store_index_delete-store_get_example =
    store_index_delete-store_get (codes "eta") 1 index index-IsSorted
      (unfold store_find find_loop past_smaller key_at strcmp cstr in refl)
      (unfold store_eq key_at strcmp cstr in refl)
