-- ===== src/Store/Gap.antt =====
-- Sizes and gaps in the file of daemon/store.c.
use infod.Prelude.{
  Bool-cases, inr, ℕ, ◌+◌, ◌-◌, ◌%◌, ◌^◌, ◌≤◌, ◌<◌, ◌≡◌, ◌≢◌, ◌⊎◌, refl, ◌∙◌, ap, true, false, leb,
  ◌==◌, arith, inl,
}
use mathlib.Core.Path.{subst}
use infod.Prelude.Ends.{done, done_inj}
use infod.Store.Record.{
  Bytes, info_align, u32, align_up, read16, read32, poke, write16, write32, info_size,
  record_is_gap, write_gap, record_init_gap, record_get_size,
}

-- A record of n bytes of key and value takes the least multiple of eight that holds them and the size.
pub info_size-bounds :
    (sz : ℕ)
    → sz < 2 ^ 16
    → (info_size sz % 8 ≡ 0) × ((sz + 2 ≤ info_size sz) × (info_size sz < sz + 10))
unfolding info_size align_up
info_size-bounds sz h = (omega arith, (omega arith, omega arith))

align_eight : (n : ℕ) → n + 8 ≤ 2 ^ 32 → n % 8 ≡ 0 → align_up n 8 ≡ n
unfolding align_up
align_eight n h e = omega arith

poke-same : (o b : ℕ) (m : Bytes) → poke o b m o ≡ b
poke-same o b m = ground arith

poke-other : (o b x : ℕ) (m : Bytes) → x ≢ o → poke o b m x ≡ m x
poke-other o b x m h = ground (arith, h)

pub write16-at : (o n x : ℕ) (m : Bytes) → x ≢ o → x ≢ o + 1 → write16 o n m x ≡ m x
unfolding write16
write16-at o n x m h g = ground (arith, h, g)

pub read16-write16 : (o n : ℕ) (m : Bytes) → n < 2 ^ 16 → read16 (write16 o n m) o ≡ n
unfolding write16
read16-write16 o n m h =
    let other : (o + 1 == o) ≡ false = ground arith in
    let same : (o == o) ≡ true = ground arith in
    let same' : (o + 1 == o + 1) ≡ true = ground arith in rw (same, other, same') (omega arith)

read32-write32 : (o n : ℕ) (m : Bytes) → n < 2 ^ 32 → read32 (write32 o n m) o ≡ n
unfolding write32
read32-write32 o n m h =
    let a : (o == o) ≡ true = ground arith in
    let b : (o + 1 == o) ≡ false = ground arith in
    let c : (o + 1 == o + 1) ≡ true = ground arith in
    let d : (o + 2 == o) ≡ false = ground arith in
    let e : (o + 2 == o + 1) ≡ false = ground arith in
    let f : (o + 2 == o + 2) ≡ true = ground arith in
    let g : (o + 3 == o) ≡ false = ground arith in
    let i : (o + 3 == o + 1) ≡ false = ground arith in
    let j : (o + 3 == o + 2) ≡ false = ground arith in
    let k : (o + 3 == o + 3) ≡ true = ground arith in
    rw (a, b, c, d, e, f, g, i, j, k) (omega arith)

write32-at : (o n x : ℕ) (m : Bytes) → (x < o) ⊎ (o + 4 ≤ x) → write32 o n m x ≡ m x
unfolding write32
write32-at o n x m h = ground (arith, h)

-- Bytes outside of [o, o + 8) stay.
pub write_gap-at : (o n x : ℕ) (m : Bytes) → (x < o) ⊎ (o + 8 ≤ x) → write_gap o n m x ≡ m x
write_gap-at o n x m h =
    write32-at (o + 4) (n - info_align) x (write16 (o + 2) 0 (write16 o 0 m)) (ground (arith, h))
    ∙ write16-at (o + 2) 0 x (write16 o 0 m) (λ e. ground (arith, h, e)) (λ e. ground (arith, h, e))
    ∙ write16-at o 0 x m (λ e. ground (arith, h, e)) (λ e. ground (arith, h, e))

write_gap-zero : (o n : ℕ) (m : Bytes) → read16 (write_gap o n m) o ≡ 0
write_gap-zero o n m =
    let m1 = write16 o 0 m in
    let m2 = write16 (o + 2) 0 m1 in
    let a = write32-at (o + 4) (n - info_align) o m2 (inl (omega arith)) in
    let b = write32-at (o + 4) (n - info_align) (o + 1) m2 (inl (omega arith)) in
    let c =
      write16-at (o + 2) 0 o m1 (λ e. absurd (omega (arith, e))) (λ e. absurd (omega (arith, e))) in
    let d =
      write16-at (o + 2) 0 (o + 1) m1 (λ e. absurd (omega (arith, e)))
        (λ e. absurd (omega (arith, e))) in
    omega (arith, a, b, c, d, read16-write16 o 0 m (omega arith))

-- A gap that is written is read again: record_init_gap() of a size that is a multiple of eight, at
-- least eight and below 2^32, changes eight bytes, after which the record is a gap of that size.
pub record_init_gap-gap :
    (o n : ℕ) (m : Bytes)
    → 8 ≤ n
    → n < 2 ^ 32
    → n % 8 ≡ 0
    → (m' : Bytes) × (record_init_gap o n m ≡ done m')
      × (record_is_gap m' o ≡ true)
      × (record_get_size m' o ≡ n)
      × ((x : ℕ) → (x < o) ⊎ (o + 8 ≤ x) → m' x ≡ m x)
unfolding record_init_gap record_is_gap record_get_size
record_init_gap-gap o n m l b e =
    let z = write_gap-zero o n m in
    let is_gap : (read16 (write_gap o n m) o == 0) ≡ true = rw z refl in
    let big : leb info_align n ≡ true = ground (arith, l) in
    let k =
      read32-write32 (o + 4) (n - info_align) (write16 (o + 2) 0 (write16 o 0 m)) (omega arith) in
    let up = align_eight (n - info_align) (omega (arith, b, l)) (omega (arith, e, l)) in
    (
      write_gap o n m,
      rw big refl,
      is_gap,
      rw is_gap (ap (λ v. u32 (align_up v info_align + info_align)) k ∙ omega (arith, up, l, b)),
      λ x h. write_gap-at o n x m h,
    )

pub poke_bytes :
    (o b : ℕ) (m : Bytes) → b < 2 ^ 8 → ((x : ℕ) → m x < 2 ^ 8) → (x : ℕ) → poke o b m x < 2 ^ 8
poke_bytes o b m h g x = elim (Bool-cases (x == o)) [ inl e ↦ rw e h | inr e ↦ rw e (g x) ]

pub write16_bytes :
    (o n : ℕ) (m : Bytes) → ((x : ℕ) → m x < 2 ^ 8) → (x : ℕ) → write16 o n m x < 2 ^ 8
unfolding write16
write16_bytes o n m h = poke_bytes o _ _ (omega arith) (poke_bytes (o + 1) _ m (omega arith) h)

write32_bytes : (o n : ℕ) (m : Bytes) → ((x : ℕ) → m x < 2 ^ 8) → (x : ℕ) → write32 o n m x < 2 ^ 8
unfolding write32
write32_bytes o n m h = poke_bytes o _ _ (omega arith) (
    poke_bytes (o + 1) _ _ (omega arith)
      (poke_bytes (o + 2) _ _ (omega arith) (poke_bytes (o + 3) _ m (omega arith) h)))

-- A gap is written in bytes.
pub record_init_gap_bytes :
    (o n : ℕ) (m m' : Bytes)
    → 8 ≤ n
    → record_init_gap o n m ≡ done m'
    → ((x : ℕ) → m x < 2 ^ 8)
    → (x : ℕ) → m' x < 2 ^ 8
unfolding record_init_gap
record_init_gap_bytes o n m m' l e h x =
    let big : leb info_align n ≡ true = ground (arith, l) in
    let same : write_gap o n m ≡ m' = done_inj (rw big refl) e in
    subst (λ f. f x < 2 ^ 8) same
      (write32_bytes (o + 4) _ _ (write16_bytes (o + 2) 0 _ (write16_bytes o 0 m h)) x)
