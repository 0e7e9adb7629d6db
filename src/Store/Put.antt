-- ===== src/Store/Put.antt =====
-- store_put() and store_del() of daemon/store.c on the file and its index.
use infod.Prelude.{
  ℕ, ◌+◌, ◌-◌, ◌%◌, ℤ, pos, negsuc, Bool, true, false, not, ◌&&◌, Option, none, some, List, [], ◌∷◌,
  ◌++◌, ltb, ◌==◌, if◌then◌else◌, length, take, drop, get_elem?,
}
use infod.Prelude.Ends.{Run, done, aborted, spins, ◌>>=◌}
use infod.Match.{cstr}
use infod.Store.{store_find, store_eq}
use infod.Store.Record.{
  info_align, read16, write16, write, info_size, record_is_gap, record_get_size,
}
use infod.Store.File.{
  StoreFile, Backing, entries, init_gap, store_set_space, set_file, store_index_ensure,
}
use infod.Store.Alloc.{store_file_trim, store_file_alloc, store_file_dealloc}

-- store_index_insert() with the assignment to the new cell.
abbrev pub insert_at : ℕ → ℕ → List ℕ → List ℕ
insert_at i o index = take i index ++ o ∷ drop i index

abbrev pub remove_at : ℕ → List ℕ → List ℕ
remove_at i index = take i index ++ drop (i + 1) index

abbrev pub same_text : List ℕ → List ℕ → Bool
same_text [] [] = true
same_text (a ∷ s) (b ∷ t) = let rest = same_text s t in (a == b) && rest
same_text _ _ = false

-- The record at `after` is a gap; there is none behind the last data.
abbrev pub gap_after : ℕ → StoreFile → Bool
gap_after after s = not (after == s.space) && record_is_gap s.file after

-- The size of that gap.
abbrev pub gap_size : ℕ → StoreFile → ℕ
gap_size after s = if gap_after after s then record_get_size s.file after else 0

abbrev pub set_sz : ℕ → ℕ → StoreFile → StoreFile
set_sz offset sz s = set_file (write16 offset sz s.file) s

module _ (backing : Backing) where
  -- An allocation that gets smaller. The size of a gap behind it is added up, and not used.
  unfoldable pub shrink_info : ℕ → ℕ → ℕ → ℕ → StoreFile → Run (Option ℕ × StoreFile)
  shrink_info offset sz new_alloc old_alloc s =
      let s' = set_sz offset sz s in
      if offset + old_alloc == s.space
      then (store_set_space (offset + new_alloc) s' >>= store_file_trim backing >>= λ s''.
          done (some offset, s''))
      else (init_gap (offset + new_alloc) (old_alloc - new_alloc) s' >>= λ s''.
          done (some offset, s''))

  abbrev pub reinsert : ℕ → Option ℕ × StoreFile → Option ℕ × StoreFile
  reinsert i (none, s) = (none, s)
  reinsert i (some o, s) = (some o, record s { index = insert_at i o s.index })

  abbrev pub replace_cell : ℕ → Option ℕ × StoreFile → Option ℕ × StoreFile
  replace_cell i (none, s) = (none, record s { index = remove_at i s.index })
  replace_cell i (some o, s) = (some o, record s { index = insert_at i o (remove_at i s.index) })

  -- The old record becomes a gap, and a new one is allocated.
  unfoldable pub move_info : ℕ → ℕ → ℕ → ℕ → StoreFile → Run (Option ℕ × StoreFile)
  move_info i offset sz old_alloc s =
      init_gap offset (old_alloc + gap_size (offset + old_alloc) s) s >>= λ s'.
      if ltb (info_size sz) (s'.filesz - s'.space)
      then (store_file_alloc backing sz s' >>= λ r. done (replace_cell i r))
      else (store_file_alloc backing sz (record s' { index = remove_at i s'.index }) >>= λ r.
          done (reinsert i r))

  -- An allocation that gets larger: into the gap behind it, or by a new one.
  unfoldable pub grow_info : ℕ → ℕ → ℕ → ℕ → ℕ → StoreFile → Run (Option ℕ × StoreFile)
  grow_info i offset sz new_alloc old_alloc s =
      let after_size = gap_size (offset + old_alloc) s in
      let grow = new_alloc - old_alloc in
      if gap_after (offset + old_alloc) s && (after_size == grow)
      then done (some offset, set_sz offset sz s)
      else if gap_after (offset + old_alloc) s && ltb grow after_size
      then (init_gap (offset + new_alloc) (after_size - grow) s >>= λ s'.
          done (some offset, set_sz offset sz s'))
      else move_info i offset sz old_alloc s

  abbrev pub realloc_at : ℕ → ℕ → Option ℕ → StoreFile → Run (Option ℕ × StoreFile)
  realloc_at i sz none s = aborted
  realloc_at i sz (some offset) s =
      let old_alloc = info_size (read16 s.file offset) in
      let new_alloc = info_size sz in
      if not (ltb offset s.filesz && (offset % info_align == 0))
      then aborted
      else if new_alloc == old_alloc
      then done (some offset, set_sz offset sz s)
      else if ltb new_alloc old_alloc
      then shrink_info offset sz new_alloc old_alloc s
      else grow_info i offset sz new_alloc old_alloc s

  -- The offset of the resized record; none is for NULL.
  unfoldable pub store_info_realloc : ℕ → ℕ → StoreFile → Run (Option ℕ × StoreFile)
  store_info_realloc i sz s = realloc_at i sz (get_elem? s.index i) s

  abbrev pub free_at_offset : Option ℕ → StoreFile → Run StoreFile
  free_at_offset none s = aborted
  free_at_offset (some offset) s = store_file_dealloc backing offset s

  -- store_info_free() with the deletion of the cell that it clears.
  unfoldable pub store_info_free : ℕ → StoreFile → Run StoreFile
  store_info_free i s = free_at_offset (get_elem? s.index i) s >>= λ s'.
      done (record s' { index = remove_at i s'.index })

  -- memcpy() of the key and value, and the result.
  abbrev pub write_info : List ℕ → Option ℕ × StoreFile → ℤ × StoreFile
  write_info keyvalue (none, s) = (negsuc 0, s)
  write_info keyvalue (some offset, s) = (pos 1, set_file (write (offset + 2) keyvalue s.file) s)

  abbrev pub insert_info : ℕ → List ℕ → Option ℕ × StoreFile → Run (ℤ × StoreFile)
  insert_info i keyvalue (none, s) = done (negsuc 0, s)
  insert_info i keyvalue (some offset, s) =
      let r = store_index_ensure backing (length s.index) s in
      if r.0
      then done
          (write_info keyvalue (some offset, record r.1 { index = insert_at i offset r.1.index }))
      else (store_file_dealloc backing offset r.1 >>= λ s'. done (negsuc 0, s'))

  abbrev pub put_at : List ℕ → Option ℕ → StoreFile → Run (ℤ × StoreFile)
  put_at keyvalue none s = spins
  put_at keyvalue (some i) s =
      if store_eq (entries s) i (cstr keyvalue)
      then (if is_same (get_elem? (entries s) i)
          then done (pos 0, s)
          else (store_info_realloc i (length keyvalue) s >>= λ r. done (write_info keyvalue r)))
      else (store_file_alloc backing (length keyvalue) s >>= insert_info i keyvalue)
    where
      is_same : Option (List ℕ) → Bool
      is_same none = false
      is_same (some e) = same_text e keyvalue

  -- `sz` is the length of keyvalue.
  unfoldable pub store_put : List ℕ → StoreFile → Run (ℤ × StoreFile)
  store_put keyvalue s = put_at keyvalue (store_find (cstr keyvalue) (entries s)) s

  abbrev pub del_at : List ℕ → Option ℕ → StoreFile → Run (ℤ × StoreFile)
  del_at key none s = spins
  del_at key (some i) s =
      if store_eq (entries s) i key
      then (store_info_free i s >>= λ s'. done (pos 1, s'))
      else done (pos 0, s)

  unfoldable pub store_del : List ℕ → StoreFile → Run (ℤ × StoreFile)
  store_del key s = del_at key (store_find key (entries s)) s
