-- ===== src/Store/Grown.antt =====
-- store_file_alloc() of daemon/store.c with room, after a repack, and in a file made longer.
use infod.Prelude.{ℕ, ◌<◌, ◌≡◌, ◌⊎◌, Option, none, pos, List, ltb, if◌then◌else◌}
use infod.Prelude.Ends.{Run, done}
use infod.Store.Record.{info_size}
use infod.Store.File.{StoreFile, Backing, room}
use infod.Store.Alloc.{place_data, grow_for}
use infod.Store.Layout.{IsByte}
use infod.Store.Intact.{IsIntact, IsGrown}

-- The file after store_file_setsize() to more than its size.
record IsLonger (n : ℕ) (s s' : StoreFile) : Type 0 where
  filesz : s'.filesz ≡ n
  space : s'.space ≡ s.space
  pagesize : s'.pagesize ≡ s.pagesize
  before : (x : ℕ) → x < s.filesz → s'.file x ≡ s.file x
  bytes : IsByte s.file → IsByte s'.file

-- What store_file_alloc() leaves: the texts with the new one, or, with no room for it, the texts.
abbrev pub Allocates : List (List ℕ) → List ℕ → Run (Option ℕ × StoreFile) → Type 0
Allocates texts kv run =
    (r : Option ℕ × StoreFile) × (run ≡ done r)
    × (IsGrown texts kv r ⊎ ((r.0 ≡ none) × IsIntact texts r.1))

module _ (backing : Backing) (extends : (n : ℕ) → backing.fallocate n ≡ pos 0) where
  -- store_file_alloc() with no need to repack.
  abbrev allocate : ℕ → StoreFile → Run (Option ℕ × StoreFile)
  allocate sz s =
      if ltb (room s) (info_size sz)
      then grow_for backing sz (info_size sz) s
      else place_data backing sz (info_size sz) s
