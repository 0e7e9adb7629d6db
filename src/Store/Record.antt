-- ===== src/Store/Record.antt =====
-- The records in the file of daemon/store.c: data and gaps. The file is a function from an offset to
-- a byte, and numbers in it have their low byte first.
use infod.Prelude.{
  ℕ, zero, suc, ◌+◌, ◌-◌, ◌*◌, ◌/◌, ◌%◌, ◌^◌, Bool, ◌&&◌, List, [], ◌∷◌, ltb, leb, ◌==◌,
  if◌then◌else◌,
}
use infod.Prelude.Ends.{Run, done, aborted}

abbrev pub Bytes : Type 0
Bytes = ℕ → ℕ

-- INFO_ALIGN
abbrev pub info_align : ℕ
info_align = 8

abbrev pub u32 : ℕ → ℕ
u32 n = n % 2 ^ 32

-- roundup(): `& ~(align - 1)` takes off what is over a multiple of a power of 2.
unfoldable pub align_up : ℕ → ℕ → ℕ
align_up n align = let m = u32 (n + (align - 1)) in m - m % align

abbrev pub read16 : Bytes → ℕ → ℕ
read16 m o = m o + 2 ^ 8 * m (o + 1)

abbrev pub read32 : Bytes → ℕ → ℕ
read32 m o = m o + 2 ^ 8 * m (o + 1) + 2 ^ 16 * m (o + 2) + 2 ^ 24 * m (o + 3)

abbrev pub poke : ℕ → ℕ → Bytes → Bytes
poke o b m x = if x == o then b else m x

unfoldable pub write16 : ℕ → ℕ → Bytes → Bytes
write16 o n m = poke o (n % 2 ^ 8) (poke (o + 1) (n / 2 ^ 8 % 2 ^ 8) m)

unfoldable pub write32 : ℕ → ℕ → Bytes → Bytes
write32 o n m = poke o (n % 2 ^ 8) (
    poke (o + 1) (n / 2 ^ 8 % 2 ^ 8)
      (poke (o + 2) (n / 2 ^ 16 % 2 ^ 8) (poke (o + 3) (n / 2 ^ 24 % 2 ^ 8) m)))

-- memmove() within the file.
unfoldable pub copy : ℕ → ℕ → ℕ → Bytes → Bytes
copy to from n m x = if leb to x && ltb x (to + n) then m (from + (x - to)) else m x

-- memcpy() into the file.
abbrev pub write : ℕ → List ℕ → Bytes → Bytes
write o [] m = m
write o (b ∷ bs) m = poke o b (write (o + 1) bs m)

-- The n bytes from an offset.
abbrev pub slice : Bytes → ℕ → ℕ → List ℕ
slice m o zero = []
slice m o (suc n) = m o ∷ slice m (o + 1) n

-- The keyvalue[] of a data record; its offset is that of `sz` and two more.
unfoldable pub entry_at : Bytes → ℕ → List ℕ
entry_at m o = slice m (o + 2) (read16 m o)

unfoldable pub info_size : ℕ → ℕ
info_size sz = align_up (2 + sz) info_align

unfoldable pub record_is_gap : Bytes → ℕ → Bool
record_is_gap m o = read16 m o == 0

abbrev pub write_gap : ℕ → ℕ → Bytes → Bytes
write_gap o n m = write32 (o + 4) (n - info_align) (write16 (o + 2) 0 (write16 o 0 m))

unfoldable pub record_init_gap : ℕ → ℕ → Bytes → Run Bytes
record_init_gap o n m = if leb info_align n then done (write_gap o n m) else aborted

unfoldable pub record_get_size : Bytes → ℕ → ℕ
record_get_size m o =
    if record_is_gap m o
    then u32 (align_up (read32 m (o + 4)) info_align + info_align)
    else info_size (read16 m o)
