-- ===== src/Store/Open.antt =====
-- store_open() of daemon/store.c: the file is scanned, packed, and rid of double keys.
use infod.Prelude.{
  ℕ, zero, suc, ◌+◌, ◌-◌, ◌/◌, ◌^◌, Bool, true, false, not, ◌&&◌, ◌||◌, Option, none, some, [], ltb,
  leb, if◌then◌else◌, length, get_elem?,
}
use Prim.Native.Nat.{max}
use infod.Prelude.Ends.{Run, done, spins, ◌>>=◌}
use infod.Match.{cstr}
use infod.Store.{strcmp, is_zero}
use infod.Store.Record.{Bytes, info_align, u32, align_up, entry_at, record_is_gap, record_get_size}
use infod.Store.File.{StoreFile, Backing, info_make_gap, store_index_ensure, store_repack}
use infod.Store.Put.{remove_at}

-- The scan of the records: the offset it ends at and the number of data records. There is a round for
-- each eight bytes of the file.
unfoldable pub scan_loop : ℕ → ℕ → Bytes → ℕ → ℕ → Run (ℕ × ℕ)
scan_loop zero filesz m offset n = if ltb offset filesz then spins else done (offset, n)
scan_loop (suc fuel) filesz m offset n =
    let size = record_get_size m offset in
    elim (ltb offset filesz && leb offset (u32 (filesz + (2 ^ 32 - size)))) [
      | false ↦ done (offset, n)
      | true ↦
          scan_loop fuel filesz m (u32 (offset + size))
            (if record_is_gap m offset then n else n + 1)
    ]

abbrev pub has_key : Bytes → ℕ → Option ℕ → Bool
has_key m o none = false
has_key m o (some p) = is_zero (strcmp (cstr (entry_at m p)) (cstr (entry_at m o)))

-- The loop that makes gaps of the records with the key of the one before; none is the end.
unfoldable pub dedup_loop : ℕ → ℕ → StoreFile → Run StoreFile
dedup_loop zero i s = if ltb i (length s.index) then spins else done s
dedup_loop (suc fuel) i s = elim (get_elem? s.index i) [
  | none ↦ done s
  | some o ↦ elim (has_key s.file o (get_elem? s.index (i - 1))) [
    | false ↦ dedup_loop fuel (i + 1) s
    | true ↦
        info_make_gap o s >>= λ s'. dedup_loop fuel i (record s' { index = remove_at i s'.index })
  ]
]

abbrev pub file_size : ℕ → ℕ → ℕ
file_size pagesize st_size = max pagesize (align_up st_size pagesize)

-- The bytes of the mapped file: what is behind its end is zeroed.
abbrev pub mapped : Bytes → ℕ → Bytes
mapped m st_size o = if ltb o st_size then m o else 0

module _ (backing : Backing) where
  abbrev pub ensure_cells : ℕ → StoreFile → Bool × StoreFile
  ensure_cells zero s = (true, s)
  ensure_cells (suc n) s = store_index_ensure backing n s

  abbrev pub after_scan : StoreFile → ℕ × ℕ → Run (Option StoreFile)
  after_scan s (offset, n) =
      let r = ensure_cells n s in
      if r.0
      then (store_repack backing (record r.1 { space = offset }) >>= λ s'.
          dedup_loop (length s'.index) 1 s' >>= λ s''. done (some s''))
      else done none

  -- none is for -1.
  unfoldable pub store_file_open : ℕ → ℕ → Bytes → Run (Option StoreFile)
  store_file_open pagesize st_size m =
      let filesz = file_size pagesize st_size in
      let s : StoreFile = record {
        file = mapped m st_size;
        filesz = filesz;
        pagesize = pagesize;
        space = 0;
        index = [];
        max = 0;
      } in
      if leb (2 ^ 32 - 1) st_size
        || ((ltb st_size filesz && not (backing.can_truncate filesz))
            || not (backing.can_map filesz))
      then done none
      else (scan_loop (filesz / info_align + 1) filesz (mapped m st_size) 0 0 >>= after_scan s)
