-- ===== src/Daemon/Store.antt =====
-- daemon/store.h: the key/value store, as daemon/infod.c uses it.
-- A key is a text with no NUL. An entry is the key, a NUL, and the value.
use infod.Prelude.{ℕ, ℤ, Option, List}

-- `infos` lists the entries as store_get_first() and store_get_next() go over them.
pub record Stores (S : Type 0) : Type 0 where
  pub store_get : S → List ℕ → Option (List ℕ)
  pub store_put : S → List ℕ → ℤ × S
  pub store_del : S → List ℕ → ℤ × S
  pub infos : S → List (List ℕ)
