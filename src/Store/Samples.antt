-- ===== src/Store/Samples.antt =====
-- Files of daemon/store.c of a few bytes.
use infod.Prelude.{
  ℕ, ◌≤◌, ◌<◌, ◌≡◌, ◌⊎◌, refl, ℤ, pos, negsuc, true, Option, none, some, List, [], ◌∷◌, ◌++◌, arith,
  leb,
}
use infod.Prelude.Ends.{Run, done, aborted, spins, ◌>>=◌}
use infod.Match.{cstr}
use infod.Store.{strcmp, store_find, store_eq}
use infod.Store.Record.{
  Bytes, align_up, write16, write32, copy, write, entry_at, info_size, record_is_gap,
  record_init_gap, record_get_size,
}
use infod.Store.Gap.{record_init_gap-gap}
use infod.Store.File.{
  StoreFile, Backing, entries, init_gap, store_set_space, insert_cell, sort_cells,
  store_index_ensure, repack_data, repack_loop, store_repack,
}
use infod.Store.Alloc.{store_file_setsize, store_file_trim, store_file_alloc, store_file_dealloc}
use infod.Store.Put.{shrink_info, move_info, grow_info, store_info_realloc, store_put, store_del}
use infod.Store.Open.{scan_loop, dedup_loop, store_file_open}
use infod.Store.Corrupt.{scan_loop-spins, scan_loop-beyond}
use infod.Store.Layout.{Holds, stop, skip, text, IsByte}
use infod.Store.Packed.{IsPacked, store_repack-IsPacked}

abbrev blank : Bytes
blank o = 0

abbrev backing : Backing
backing = record {
  can_alloc = λ n. true;
  fallocate = λ n. pos 0;
  can_map = λ n. true;
  can_truncate = λ n. true;
}

-- The key `a` with the value `b`.
abbrev ab : List ℕ
ab = b'a' ∷ 0 ∷ b'b' ∷ []

-- A gap, and a record.
abbrev gap_and_text : Bytes
gap_and_text = write 8 (3 ∷ 0 ∷ ab) blank

gap_and_text-IsByte : IsByte gap_and_text
gap_and_text-IsByte o = ground arith

abbrev small : StoreFile
small = record { file = gap_and_text; filesz = 32; pagesize = 32; space = 16; index = []; max = 0 }

small-Holds : Holds gap_and_text 16 0 (ab ∷ [])
unfolding record_is_gap record_get_size align_up info_size entry_at
small-Holds = skip refl (omega arith) (text refl stop)

store_repack-IsPacked_example :
    (s : StoreFile) × (store_repack backing small ≡ done s) × IsPacked (ab ∷ []) small s
store_repack-IsPacked_example =
    store_repack-IsPacked backing (λ n. refl) (ab ∷ []) small small-Holds gap_and_text-IsByte
      (omega arith) (omega arith) refl

record_init_gap-gap_example :
    (m : Bytes) × (record_init_gap 8 24 gap_and_text ≡ done m)
    × (record_is_gap m 8 ≡ true)
    × (record_get_size m 8 ≡ 24)
    × ((x : ℕ) → (x < 8) ⊎ (16 ≤ x) → m x ≡ gap_and_text x)
record_init_gap-gap_example = record_init_gap-gap 8 24 gap_and_text (omega arith) (omega arith) refl

abbrev cd : List ℕ
cd = b'c' ∷ 0 ∷ b'd' ∷ b'e' ∷ b'f' ∷ b'g' ∷ b'h' ∷ b'i' ∷ []

-- A file with no space behind its data.
abbrev tight : StoreFile
tight = record small { filesz = 16; pagesize = 4096 }

-- A gap with the size field 2^32 - 8.
abbrev endless : Bytes
endless = write 4 (248 ∷ 255 ∷ 255 ∷ 255 ∷ []) blank

scan_loop-spins_example : scan_loop 99 32 endless 0 0 ≡ spins
unfolding record_is_gap
scan_loop-spins_example =
    scan_loop-spins 99 32 0 0 endless (omega arith) (omega arith) refl (omega arith) (omega arith)

-- A record of 255 bytes in a file of 32.
abbrev too_big : Bytes
too_big = write 0 (255 ∷ 0 ∷ []) blank

scan_loop-beyond_example : (scan_loop 6 32 too_big 0 0 ≡ done (264, 1)) × (32 < 264)
unfolding record_is_gap record_get_size info_size align_up
scan_loop-beyond_example =
    scan_loop-beyond 4 32 0 0 too_big (omega arith) refl (omega arith) (omega arith)

abbrev texts_of : Run (ℤ × StoreFile) → Run (ℤ × List (List ℕ))
texts_of (done (n, s)) = done (n, entries s)
texts_of aborted = aborted
texts_of spins = spins

abbrev opened : Run (Option StoreFile) → (StoreFile → Run (ℤ × StoreFile)) → Run (ℤ × StoreFile)
opened (done (some s)) f = f s
opened (done none) f = aborted
opened aborted f = aborted
opened spins f = spins

abbrev put_three : Run (ℤ × StoreFile)
put_three = opened (store_file_open backing 32 0 blank) λ s. store_put backing cd s >>= λ r.
    store_put backing ab r.1 >>= λ r'. store_put backing (ab ++ cd) r'.1

store_runs : texts_of put_three ≡ done (pos 1, (ab ++ cd) ∷ cd ∷ [])
unfolding store_file_open scan_loop dedup_loop store_put store_del store_find store_eq strcmp
    entries entry_at store_info_realloc shrink_info grow_info move_info store_file_alloc
    store_file_dealloc store_repack repack_loop repack_data store_index_ensure sort_cells
    insert_cell init_gap record_init_gap record_is_gap record_get_size align_up info_size write16
    write32 copy store_set_space store_file_setsize store_file_trim cstr
store_runs = refl

-- A file that cannot be mapped at another size.
abbrev stiff : Backing
stiff = record backing { can_map = λ n. leb n 32 }

abbrev put_too_much : Run (ℤ × StoreFile)
put_too_much = opened (store_file_open stiff 32 0 blank) λ s. store_put stiff cd s >>= λ r.
    store_put stiff ab r.1 >>= λ r'. store_put stiff (ab ++ (cd ++ cd)) r'.1

-- The call fails, and the value that the key had is gone.
store_loses : texts_of put_too_much ≡ done (negsuc 0, cd ∷ [])
unfolding store_file_open scan_loop dedup_loop store_put store_find store_eq strcmp entries entry_at
    store_info_realloc shrink_info grow_info move_info store_file_alloc store_file_dealloc
    store_repack repack_loop repack_data store_index_ensure sort_cells insert_cell init_gap
    record_init_gap record_is_gap record_get_size align_up info_size write16 write32 copy
    store_set_space store_file_setsize cstr
store_loses = refl

-- ENOSPC is 28; posix_fallocate() does not return -1.
abbrev full : Backing
full = record backing { fallocate = λ n. pos 28 }

-- A full disk is not seen.
setsize_runs : store_file_setsize full 64 small ≡ aborted
unfolding store_file_setsize
setsize_runs = refl
