-- ===== src/Store/File.antt =====
-- The file of daemon/store.c: its layout, its growth, and the allocation of records.
use infod.Prelude.{
  ℕ, zero, suc, ◌+◌, ◌-◌, ◌*◌, ◌/◌, ◌^◌, ℤ, is_positive, Bool, true, false, ◌&&◌, List, [], ◌∷◌,
  ◌++◌, map, ltb, leb, ◌==◌, if◌then◌else◌, length,
}
use infod.Prelude.Ends.{Run, done, aborted, spins, ◌>>=◌}
use infod.Match.{cstr}
use infod.Store.{strcmp}
use infod.Store.Record.{
  Bytes, info_align, read16, u32, align_up, copy, entry_at, info_size, record_is_gap,
  record_init_gap, record_get_size,
}

-- STORE_INCREMENT
abbrev pub store_increment : ℕ
store_increment = 64

-- An entry of the index is an offset in the file; `n` is the length of the index.
pub record StoreFile : Type 0 where
  pub file : Bytes
  pub filesz : ℕ
  pub pagesize : ℕ
  pub space : ℕ
  pub index : List ℕ
  pub max : ℕ

-- What the system grants: memory by its size, the results of posix_fallocate() and ftruncate() by the
-- size of the file, and mappings by their size.
pub record Backing : Type 0 where
  pub can_alloc : ℕ → Bool
  pub fallocate : ℕ → ℤ
  pub can_map : ℕ → Bool
  pub can_truncate : ℕ → Bool

abbrev pub set_file : Bytes → StoreFile → StoreFile
set_file m s = record s { file = m }

-- The index as the texts it leads to.
unfoldable pub entries : StoreFile → List (List ℕ)
entries s = map (entry_at s.file) s.index

-- record_init_gap() on the file.
unfoldable pub init_gap : ℕ → ℕ → StoreFile → Run StoreFile
init_gap o n s = record_init_gap o n s.file >>= λ m. done (set_file m s)

-- A difference of numbers of 32 bits.
abbrev pub u32_sub : ℕ → ℕ → ℕ
u32_sub a b = u32 (a + (2 ^ 32 - b))

unfoldable pub store_set_space : ℕ → StoreFile → Run StoreFile
store_set_space space s =
    let s' = record s { space = space } in
    if space == s.filesz then done s' else init_gap space (u32_sub s.filesz space) s'

-- The loop of info_make_gap(): the end of the gaps from an offset.
unfoldable pub gaps_end : ℕ → ℕ → Bytes → ℕ → Run ℕ
gaps_end zero filesz m next = spins
gaps_end (suc fuel) filesz m next =
    let size = record_get_size m next in
    elim (ltb next filesz && record_is_gap m next) [
      | true ↦
          if ltb (u32 (filesz + (2 ^ 32 - size))) next
          then done filesz
          else gaps_end fuel filesz m (u32 (next + size))
      | false ↦ done next
    ]

abbrev pub make_gap_to : ℕ → StoreFile → ℕ → Run StoreFile
make_gap_to offset s next =
    let end = if ltb s.filesz next then s.filesz else next in
    init_gap offset (u32_sub end offset) s >>= λ s'.
    if end == s.filesz then store_set_space offset s' else done s'

-- With a round for each eight bytes of the file.
unfoldable pub info_make_gap : ℕ → StoreFile → Run StoreFile
info_make_gap offset s =
    gaps_end (s.filesz / info_align + 1) s.filesz s.file
      (u32 (offset + info_size (read16 s.file offset)))
    >>= make_gap_to offset s

-- qsort() of the cells by their keys.
unfoldable pub insert_cell : Bytes → ℕ → List ℕ → List ℕ
insert_cell m o [] = o ∷ []
insert_cell m o (p ∷ cells) =
    if is_positive (strcmp (cstr (entry_at m o)) (cstr (entry_at m p)))
    then p ∷ insert_cell m o cells
    else o ∷ p ∷ cells

unfoldable pub sort_cells : Bytes → List ℕ → List ℕ
sort_cells m [] = []
sort_cells m (o ∷ cells) = insert_cell m o (sort_cells m cells)

abbrev pub gap_at_end : ℕ → StoreFile → Run StoreFile
gap_at_end space s = if ltb space s.filesz then init_gap space (s.filesz - space) s else done s

abbrev pub end_repack : StoreFile × (ℕ × List ℕ) → Run StoreFile
end_repack (s, (space, cells)) =
    if leb space s.space
    then (gap_at_end space s >>= store_set_space space >>= λ s'.
        done (record s' { index = sort_cells s'.file cells }))
    else aborted

-- The room behind the data.
abbrev pub room : StoreFile → ℕ
room s = u32_sub s.filesz s.space

module _ (backing : Backing) where
  -- true is for 0, and false for -1.
  unfoldable pub store_index_ensure : ℕ → StoreFile → Bool × StoreFile
  store_index_ensure i s =
      let new_max = align_up (i + 1) store_increment in
      if ltb i s.max
      then (true, s)
      else if backing.can_alloc (new_max * 8)
      then (true, record s { max = new_max })
      else (false, s)

  -- Of a data record of `size` bytes at `offset`, one round of store_repack(). `cells` are those of
  -- the index that are written; a failed store_index_ensure() is not looked at, and a write to a
  -- cell that is not there is a fault.
  unfoldable pub repack_data :
      ℕ
      → ℕ
      → ℕ
      → StoreFile
      → List ℕ
      → (StoreFile → List ℕ → Run (StoreFile × (ℕ × List ℕ)))
      → Run (StoreFile × (ℕ × List ℕ))
  repack_data offset w_offset size s cells next =
      let s' =
        (store_index_ensure (length cells)
          (if w_offset == offset then s else set_file (copy w_offset offset size s.file) s)).1 in
      if ltb (length cells) s'.max then next s' (cells ++ w_offset ∷ []) else aborted

  -- The loop of store_repack(): the file, the end of the data, and the cells of the index.
  unfoldable pub repack_loop : ℕ → ℕ → ℕ → ℕ → StoreFile → List ℕ → Run (StoreFile × (ℕ × List ℕ))
  repack_loop zero space offset w_offset s cells =
      if ltb offset space then spins else done (s, (w_offset, cells))
  repack_loop (suc fuel) space offset w_offset s cells =
      let size = record_get_size s.file offset in
      elim (ltb offset space) [
        | false ↦ done (s, (w_offset, cells))
        | true ↦ elim (record_is_gap s.file offset) [
          | true ↦ repack_loop fuel space (u32 (offset + size)) w_offset s cells
          | false ↦ repack_data offset w_offset size s cells (λ s' cells'.
              repack_loop fuel space (u32 (offset + size)) (u32 (w_offset + size)) s' cells')
        ]
      ]

  unfoldable pub store_repack : StoreFile → Run StoreFile
  store_repack s = repack_loop (s.space / info_align + 1) s.space 0 0 s [] >>= end_repack
