-- ===== src/Store/Corrupt.antt =====
-- A damaged file that daemon/store.c does not see through.
use infod.Prelude.{
  ℕ, zero, suc, ◌+◌, ◌-◌, ◌^◌, ◌≤◌, ◌<◌, ◌≡◌, refl, ◌∙◌, ap, true, false, ◌&&◌, ltb, leb,
  if◌then◌else◌, arith, lt→ltb,
}
use infod.Prelude.Ends.{done, spins}
use infod.Store.Record.{Bytes, u32, align_up, read32, record_is_gap, record_get_size}
use infod.Store.Open.{scan_loop}

huge_gap :
    (m : Bytes) (o : ℕ)
    → record_is_gap m o ≡ true
    → 2 ^ 32 < read32 m (o + 4) + 16
    → read32 m (o + 4) + 8 ≤ 2 ^ 32
    → record_get_size m o ≡ 0
unfolding record_get_size align_up
huge_gap m o g l b = rw g (omega arith)

-- A gap in the file whose size field is from 2^32 - 15 to 2^32 - 8 counts as no bytes, and the scan
-- does not get past it: it ends with no number of rounds.
pub scan_loop-spins :
    (fuel filesz offset n : ℕ) (m : Bytes)
    → offset < filesz
    → filesz < 2 ^ 32
    → record_is_gap m offset ≡ true
    → 2 ^ 32 < read32 m (offset + 4) + 16
    → read32 m (offset + 4) + 8 ≤ 2 ^ 32
    → scan_loop fuel filesz m offset n ≡ spins
unfolding scan_loop
scan_loop-spins zero filesz offset n m h b g l r = rw (lt→ltb offset filesz h) refl
scan_loop-spins (suc fuel) filesz offset n m h b g l r =
    let z = huge_gap m offset g l r in
    let go : (ltb offset filesz && leb offset (u32 (filesz + (2 ^ 32 - record_get_size m offset))))
        ≡ true =
      rw z (ground (arith, h, b)) in
    let stay : u32 (offset + record_get_size m offset) ≡ offset = rw z (omega (arith, h, b)) in
    rw (go, scan_loop) (rw (stay, g) (scan_loop-spins fuel filesz offset n m h b g l r))

scan_stops :
    (fuel filesz offset n : ℕ) (m : Bytes)
    → filesz ≤ offset
    → scan_loop (suc fuel) filesz m offset n ≡ done (offset, n)
unfolding scan_loop
scan_stops fuel filesz offset n m l =
    let end : (ltb offset filesz && leb offset (u32 (filesz + (2 ^ 32 - record_get_size m offset))))
        ≡ false =
      ground (arith, l) in
    rw (end, scan_loop) refl

scan_step :
    (fuel filesz offset n : ℕ) (m : Bytes)
    → offset < filesz
    → filesz < record_get_size m offset
    → offset + record_get_size m offset < 2 ^ 32
    → scan_loop (suc fuel) filesz m offset n
      ≡ scan_loop fuel filesz m
          (u32 (offset + record_get_size m offset))
          (if record_is_gap m offset then n else n + 1)
unfolding scan_loop
scan_step fuel filesz offset n m h l b =
    let go : (ltb offset filesz && leb offset (u32 (filesz + (2 ^ 32 - record_get_size m offset))))
        ≡ true =
      ground (arith, h, l, b) in
    rw (go, scan_loop) refl

-- A data record that is larger than the file is not found to be too big: the scan goes on behind it,
-- and ends beyond the file.
pub scan_loop-beyond :
    (fuel filesz offset n : ℕ) (m : Bytes)
    → offset < filesz
    → record_is_gap m offset ≡ false
    → filesz < record_get_size m offset
    → offset + record_get_size m offset < 2 ^ 32
    → (scan_loop (suc (suc fuel)) filesz m offset n
        ≡ done (offset + record_get_size m offset, n + 1))
      × (filesz < offset + record_get_size m offset)
scan_loop-beyond fuel filesz offset n m h g l b =
    let size = record_get_size m offset in
    let next : u32 (offset + size) ≡ offset + size = omega (arith, b) in
    (
      scan_step (suc fuel) filesz offset n m h l b
          ∙ ap (λ o. scan_loop (suc fuel) filesz m o (if record_is_gap m offset then n else n + 1))
              next
          ∙ ap (λ gap. scan_loop (suc fuel) filesz m (offset + size) (if gap then n else n + 1)) g
          ∙ scan_stops fuel filesz (offset + size) (n + 1) m (omega (arith, l)),
      omega (arith, l),
    )
