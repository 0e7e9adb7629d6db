-- ===== src/Store.antt =====
-- daemon/store.c: the sorted index of the entries, and the look-ups in it.
-- The index is the list of the entries that its pointers lead to; an entry is its key, a NUL and its
-- value.
pub mod Search
pub mod Order
pub mod Sorted
pub mod Changes
pub mod Record
pub mod Gap
pub mod File
pub mod Alloc
pub mod Put
pub mod Open
pub mod Corrupt
pub mod Layout
pub mod Repack
pub mod Rounds
pub mod Packed
pub mod Added
pub mod Intact
pub mod Grown
mod Tests
mod Samples
use infod.Prelude.{
  ℕ, zero, suc, ◌+◌, ◌-◌, ◌/◌, ℤ, pos, negsuc, is_positive, Bool, true, false, ◌&&◌, Option, none,
  some, List, [], ◌∷◌, ◌++◌, ltb, leb, ◌==◌, if◌then◌else◌, length, take, drop, get_elem?,
}
use infod.Match.{cstr}

-- strcmp(), of texts without their NULs: 0, or a number below or above it.
unfoldable pub strcmp : List ℕ → List ℕ → ℤ
strcmp [] [] = pos 0
strcmp [] (b ∷ t) = negsuc 0
strcmp (a ∷ s) [] = pos 1
strcmp (a ∷ s) (b ∷ t) =
    let rest = strcmp s t in if a == b then rest else if ltb a b then negsuc 0 else pos 1

-- `index[i]->keyvalue`
abbrev pub or_empty : Option (List ℕ) → List ℕ
or_empty none = []
or_empty (some e) = e

unfoldable pub key_at : List (List ℕ) → ℕ → List ℕ
key_at index i = cstr (or_empty (get_elem? index i))

-- `if (m < b && strcmp(key, list[m]->keyvalue) > 0) m++;`
unfoldable pub past_smaller : List ℕ → List (List ℕ) → ℕ → ℕ → ℕ
unfolding key_at strcmp
past_smaller key index b m =
    if ltb m b && is_positive (strcmp key (key_at index m)) then m + 1 else m

-- The loop of store_find(); none is out of rounds.
unfoldable pub find_loop : ℕ → List ℕ → List (List ℕ) → ℕ → ℕ → Option ℕ
unfolding past_smaller
find_loop zero key index a b = none
find_loop (suc fuel) key index a b =
    let m = (a + b) / 2 in
    elim (leb m a) [
      | true ↦ some (past_smaller key index b m)
      | false ↦ elim (strcmp key (key_at index m)) [
        | pos zero ↦ some (past_smaller key index b m)
        | pos (suc n) ↦ find_loop fuel key index (m + 1) b
        | negsuc n ↦ find_loop fuel key index a m
      ]
    ]

-- The interval gets shorter in each round.
unfoldable pub store_find : List ℕ → List (List ℕ) → Option ℕ
unfolding find_loop
store_find key index = find_loop (length index + 1) key index 0 (length index)

abbrev pub is_zero : ℤ → Bool
is_zero (pos zero) = true
is_zero _ = false

unfoldable pub store_eq : List (List ℕ) → ℕ → List ℕ → Bool
store_eq index i key = ltb i (length index) && is_zero (strcmp key (key_at index i))

-- The entry, or none for NULL; the outer none is out of rounds.
unfoldable pub store_get : List (List ℕ) → List ℕ → Option (Option (List ℕ))
unfolding store_find store_eq
store_get index key = elim (store_find key index) [
  | none ↦ none
  | some i ↦ some (if store_eq index i key then get_elem? index i else none)
]

-- The assignment to the new cell with the others moved up.
unfoldable pub with_cell : ℕ → List ℕ → List (List ℕ) → List (List ℕ)
with_cell i e index = take i index ++ (e ∷ drop i index)

-- store_index_insert() and the assignment to the new cell, by whether store_index_ensure() succeeds;
-- false is for -1.
unfoldable pub store_index_insert : Bool → ℕ → List ℕ → List (List ℕ) → Bool × List (List ℕ)
unfolding with_cell
store_index_insert ensured i e index =
    if ensured then (true, with_cell i e index) else (false, index)

unfoldable pub store_index_delete : ℕ → List (List ℕ) → List (List ℕ)
store_index_delete i index = take i index ++ drop (i + 1) index

-- store_get_next(), with the index of a store_index.
unfoldable pub store_get_next : List (List ℕ) → ℕ → Option (List ℕ) × ℕ
store_get_next index i = if leb (length index) i then (none, i) else (get_elem? index i, i + 1)
