-- ===== src/Store/Alloc.antt =====
-- The growth of the file of daemon/store.c, and the allocation of records in it.
use infod.Prelude.{
  ℕ, ◌+◌, ◌-◌, ◌*◌, ◌^◌, is_failure, Bool, true, false, not, ◌&&◌, ◌||◌, Option, none, some, ltb,
  leb, ◌==◌, if◌then◌else◌,
}
use infod.Prelude.Ends.{Run, done, aborted, ◌>>=◌}
use infod.Store.Record.{read16, u32, align_up, write16, info_size, record_is_gap, record_get_size}
use infod.Store.{is_zero}
use infod.Store.File.{
  StoreFile, Backing, set_file, init_gap, store_set_space, gap_at_end, room, store_repack,
}

module _ (backing : Backing) where
  -- The file of another size, which has been mapped.
  abbrev pub resized : ℕ → StoreFile → StoreFile
  resized new_filesz s = record s {
    filesz =
        if ltb new_filesz s.filesz && not (backing.can_truncate new_filesz)
        then s.filesz
        else new_filesz;
    file = λ o.
        if leb s.filesz o && ltb s.filesz new_filesz
        then 0
        else if leb new_filesz o && backing.can_truncate new_filesz
        then 0
        else s.file o;
  }

  -- posix_fallocate() returns an error number, which is not -1: the error is not noticed.
  abbrev pub unnoticed : ℕ → StoreFile → Bool
  unnoticed new_filesz s = ltb s.filesz new_filesz && not (is_zero (backing.fallocate new_filesz))

  -- The new part of a file that is made longer is zero; false is for -1. After an error that is not
  -- noticed the file may end before the mapping does: the program goes on, and an access behind the
  -- end of the file raises SIGBUS. `aborted` stands for that.
  unfoldable pub store_file_setsize : ℕ → StoreFile → Run (Bool × StoreFile)
  store_file_setsize new_filesz s =
      if (ltb s.filesz new_filesz && is_failure (backing.fallocate new_filesz))
        || not (backing.can_map new_filesz)
      then done (false, s)
      else if unnoticed new_filesz s
      then aborted
      else done (true, resized new_filesz s)

  unfoldable pub store_file_trim : StoreFile → Run StoreFile
  store_file_trim s =
      if ltb (align_up (u32 (s.space + 3 * s.pagesize)) s.pagesize) s.filesz
      then (store_file_setsize (align_up (u32 (s.space + s.pagesize)) s.pagesize) s >>= λ r.
          init_gap s.space (u32 (r.1.filesz + (2 ^ 32 - s.space))) r.1)
      else done s

  abbrev pub place_data : ℕ → ℕ → StoreFile → Run (Option ℕ × StoreFile)
  place_data sz size s =
      if leb size (room s)
      then (gap_at_end (s.space + size) (record s { space = s.space + size }) >>= λ s'.
          done (some s.space, set_file (write16 s.space sz s'.file) s'))
      else aborted

  abbrev pub grow_for : ℕ → ℕ → StoreFile → Run (Option ℕ × StoreFile)
  grow_for sz size s =
      if leb (2 ^ 32 - 1 - size) s.filesz
      then done (none, s)
      else store_file_setsize (align_up (u32 (s.space + size)) s.pagesize) s >>= λ r.
          if r.0 then place_data sz size r.1 else done (none, r.1)

  -- The offset of the new record; none is for NULL.
  unfoldable pub store_file_alloc : ℕ → StoreFile → Run (Option ℕ × StoreFile)
  store_file_alloc sz s =
      let size = info_size sz in
      (if ltb (room s) size then store_repack backing s else done s) >>= λ s'.
      if ltb (room s') size then grow_for sz size s' else place_data sz size s'

  unfoldable pub store_file_dealloc : ℕ → StoreFile → Run StoreFile
  store_file_dealloc offset s =
      let size = info_size (read16 s.file offset) in
      if offset + size == s.space
      then (store_set_space offset s >>= store_file_trim)
      else init_gap offset
          (if record_is_gap s.file (offset + size)
            then size + record_get_size s.file (offset + size)
            else size)
          s
