-- ===== src/Store/Layout.antt =====
-- What the file of daemon/store.c holds: the texts of its data records, in their order.
use infod.Prelude.{
  ℕ, zero, suc, ◌+◌, ◌%◌, ◌^◌, ◌≤◌, ◌<◌, ◌≡◌, refl, ◌∙◌, ap, true, false, List, [], ◌∷◌, ◌++◌, map,
  ◌==◌, if◌then◌else◌, arith, inl, inr, length, ◌⊎◌,
}
use mathlib.Core.Path.{subst}
use infod.Store.Record.{
  Bytes, info_align, u32, align_up, read16, read32, slice, entry_at, info_size, record_is_gap,
  record_get_size,
}
use infod.Store.Gap.{info_size-bounds}

-- From o to e there are records, and these are the texts of those that are data.
pub data Holds (m : Bytes) (e : ℕ) : ℕ → List (List ℕ) → Type 0 where
  stop : Holds m e e []
  skip :
      {o : ℕ} {texts : List (List ℕ)}
      → record_is_gap m o ≡ true
      → 0 < record_get_size m o
      → Holds m e (o + record_get_size m o) texts
      → Holds m e o texts
  text :
      {o : ℕ} {texts : List (List ℕ)}
      → record_is_gap m o ≡ false
      → Holds m e (o + record_get_size m o) texts
      → Holds m e o (entry_at m o ∷ texts)

-- The same with no gaps, and the offsets of the records.
pub data Packs (m : Bytes) (e : ℕ) : ℕ → List ℕ → Type 0 where
  stop : Packs m e e []
  text :
      {o : ℕ} {cells : List ℕ}
      → record_is_gap m o ≡ false
      → Packs m e (o + record_get_size m o) cells
      → Packs m e o (o ∷ cells)

abbrev pub IsByte : Bytes → Type 0
IsByte m = (o : ℕ) → m o < 2 ^ 8

read16-lt : (m : Bytes) (o : ℕ) → IsByte m → read16 m o < 2 ^ 16
read16-lt m o h = omega (arith, h o, h (o + 1))

pub data_size :
    (m : Bytes) (o : ℕ)
    → IsByte m
    → record_is_gap m o ≡ false
    → (record_get_size m o ≡ info_size (read16 m o))
      × ((read16 m o + 2 ≤ record_get_size m o) × (8 ≤ record_get_size m o))
unfolding record_get_size
data_size m o h g =
    let b = info_size-bounds (read16 m o) (read16-lt m o h) in
    rw g (refl, (b.1.0, omega (arith, b)))

pub Holds-le : (m : Bytes) (e o : ℕ) (texts : List (List ℕ)) → Holds m e o texts → o ≤ e
Holds-le m e o texts stop = omega arith
Holds-le m e o texts (skip g z h) = omega (arith, Holds-le m e _ _ h)
Holds-le m e o texts (text g h) = omega (arith, Holds-le m e _ _ h)

pub Packs-le : (m : Bytes) (e o : ℕ) (cells : List ℕ) → Packs m e o cells → o ≤ e
Packs-le m e o cells stop = omega arith
Packs-le m e o cells (text g h) = omega (arith, Packs-le m e _ _ h)

-- The bytes from o on, up to e, are those of m from p on.
abbrev pub Agrees : Bytes → ℕ → Bytes → ℕ → ℕ → Type 0
Agrees m' o m p n = (k : ℕ) → k < n → m' (o + k) ≡ m (p + k)

slice-Agrees : (m' m : Bytes) (o p n : ℕ) → Agrees m' o m p n → slice m' o n ≡ slice m p n
slice-Agrees m' m o p zero h = refl
slice-Agrees m' m o p (suc n) h =
    let first : m' o ≡ m p = ap m' (omega arith) ∙ h 0 (omega arith) ∙ ap m (omega arith) in
    rw first (
      ap (λ l. m p ∷ l)
        (slice-Agrees m' m (o + 1) (p + 1) n
          λ k b. ap m' (omega arith) ∙ h (k + 1) (omega (arith, b)) ∙ ap m (omega arith)))

read16-Agrees : (m' m : Bytes) (o p n : ℕ) → 2 ≤ n → Agrees m' o m p n → read16 m' o ≡ read16 m p
read16-Agrees m' m o p n l h =
    let first : m' o ≡ m p = ap m' (omega arith) ∙ h 0 (omega (arith, l)) ∙ ap m (omega arith) in
    omega (arith, first, h 1 (omega (arith, l)))

-- A record is what its bytes make it.
pub is_gap-Agrees :
    (m' m : Bytes) (o p n : ℕ) → 2 ≤ n → Agrees m' o m p n → record_is_gap m' o ≡ record_is_gap m p
unfolding record_is_gap
is_gap-Agrees m' m o p n l h = ap (λ v. v == 0) (read16-Agrees m' m o p n l h)

pub entry_at-Agrees :
    (m' m : Bytes) (o p n : ℕ)
    → read16 m p + 2 ≤ n
    → Agrees m' o m p n
    → entry_at m' o ≡ entry_at m p
unfolding entry_at
entry_at-Agrees m' m o p n l h = rw (read16-Agrees m' m o p n (omega (arith, l)) h) (
    slice-Agrees m' m (o + 2) (p + 2) (read16 m p)
      λ k b. ap m' (omega arith) ∙ h (k + 2) (omega (arith, b, l)) ∙ ap m (omega arith))

pub get_size-Agrees :
    (m' m : Bytes) (o p n : ℕ)
    → 8 ≤ n
    → Agrees m' o m p n
    → record_get_size m' o ≡ record_get_size m p
unfolding record_get_size
get_size-Agrees m' m o p n l h =
    let b : (k : ℕ) → k < 4 → m' (o + 4 + k) ≡ m (p + 4 + k) =
      λ k c. ap m' (omega arith) ∙ h (4 + k) (omega (arith, c, l)) ∙ ap m (omega arith) in
    let first : m' (o + 4) ≡ m (p + 4) = h 4 (omega (arith, l)) in
    let r : read32 m' (o + 4) ≡ read32 m (p + 4) =
      omega (arith, first, b 1 (omega arith), b 2 (omega arith), b 3 (omega arith)) in
    rw
      (
        is_gap-Agrees m' m o p n (omega (arith, l)) h,
        r,
        read16-Agrees m' m o p n (omega (arith, l)) h,
      )
      refl

pub gap_size-min :
    (m : Bytes) (o : ℕ)
    → record_is_gap m o ≡ true
    → 0 < record_get_size m o
    → 8 ≤ record_get_size m o
unfolding record_get_size align_up
gap_size-min m o g z = rw g (
    omega (
      arith,
      subst
          (λ b. 0 < (
            if b
            then u32 (align_up (read32 m (o + 4)) info_align + info_align)
            else info_size (read16 m o)))
          g z,
    ))

here :
    (m' m : Bytes) (o n e : ℕ)
    → o + n ≤ e
    → ((x : ℕ) → o ≤ x → x < e → m' x ≡ m x)
    → Agrees m' o m o n
here m' m o n e l h k b = h (o + k) (omega arith) (omega (arith, b, l))

cons_text :
    (m' m : Bytes) (e o : ℕ) (texts : List (List ℕ))
    → entry_at m' o ≡ entry_at m o
    → record_is_gap m' o ≡ false
    → Holds m' e (o + record_get_size m' o) texts
    → Holds m' e o (entry_at m o ∷ texts)
cons_text m' m e o texts same g r = subst (λ t. Holds m' e o (t ∷ texts)) same (text g r)

-- Only the bytes from o to e count.
pub Holds-Agrees :
    (m' m : Bytes) (e o : ℕ) (texts : List (List ℕ))
    → IsByte m
    → ((x : ℕ) → o ≤ x → x < e → m' x ≡ m x)
    → Holds m e o texts
    → Holds m' e o texts
Holds-Agrees m' m e o texts b h stop = stop
Holds-Agrees m' m e o texts b h (skip g z r) =
    let n = record_get_size m o in
    let l = gap_size-min m o g z in
    let a = here m' m o n e (Holds-le m e _ _ r) h in
    let same = get_size-Agrees m' m o o n l a in
    skip (is_gap-Agrees m' m o o n (omega (arith, l)) a ∙ g) (rw same z)
      (rw same (Holds-Agrees m' m e (o + n) _ b (λ x p q. h x (omega (arith, p)) q) r))
Holds-Agrees m' m e o texts b h (text g r) =
    let n = record_get_size m o in
    let l = (data_size m o b g).1 in
    let a = here m' m o n e (Holds-le m e _ _ r) h in
    let same = get_size-Agrees m' m o o n l.1 a in
    cons_text m' m e o _ (entry_at-Agrees m' m o o n l.0 a)
      (is_gap-Agrees m' m o o n (omega (arith, l.1)) a ∙ g)
      (rw same (Holds-Agrees m' m e (o + n) _ b (λ x p q. h x (omega (arith, p)) q) r))

pub Packs-Agrees :
    (m' m : Bytes) (e o : ℕ) (cells : List ℕ)
    → IsByte m
    → ((x : ℕ) → o ≤ x → x < e → m' x ≡ m x)
    → Packs m e o cells
    → Packs m' e o cells × (map (entry_at m') cells ≡ map (entry_at m) cells)
Packs-Agrees m' m e o cells b h stop = (stop, refl)
Packs-Agrees m' m e o cells b h (text g r) =
    let n = record_get_size m o in
    let l = (data_size m o b g).1 in
    let a = here m' m o n e (Packs-le m e _ _ r) h in
    let same = get_size-Agrees m' m o o n l.1 a in
    let k = Packs-Agrees m' m e (o + n) _ b (λ x p q. h x (omega (arith, p)) q) r in
    (
      text (is_gap-Agrees m' m o o n (omega (arith, l.1)) a ∙ g) (rw same k.0),
      rw (entry_at-Agrees m' m o o n l.0 a, k.1) refl,
    )

-- One more record at the end.
pub Packs-snoc :
    (m : Bytes) (e o : ℕ) (cells : List ℕ)
    → record_is_gap m e ≡ false
    → Packs m e o cells
    → Packs m (e + record_get_size m e) o (cells ++ e ∷ [])
Packs-snoc m e o cells g stop = text g stop
Packs-snoc m e o cells g (text f r) = text f (Packs-snoc m e _ _ g r)

-- The records start at multiples of eight, and there are no more of them than bytes.
pub Packs-multiple :
    (m : Bytes) (e o : ℕ) (cells : List ℕ)
    → IsByte m
    → o % 8 ≡ 0
    → Packs m e o cells
    → (e % 8 ≡ 0) × (o + length cells ≤ e)
Packs-multiple m e o cells b z stop = (z, omega arith)
Packs-multiple m e o cells b z (text g r) =
    let d = data_size m o b g in
    let i = info_size-bounds (read16 m o) (read16-lt m o b) in
    let k = Packs-multiple m e _ _ b (omega (arith, z, d.0, i.0)) r in
    (k.0, omega (arith, k.1, d.1.1))

-- What there can be at an offset.
pub Holds-cases :
    (m : Bytes) (e o : ℕ) (texts : List (List ℕ))
    → Holds m e o texts
    → ((o ≡ e) × (texts ≡ []))
      ⊎ (((record_is_gap m o ≡ true)
            × ((0 < record_get_size m o) × Holds m e (o + record_get_size m o) texts))
          ⊎ ((record_is_gap m o ≡ false)
              × ((rest : List (List ℕ)) × (texts ≡ entry_at m o ∷ rest)
                  × Holds m e (o + record_get_size m o) rest)))
Holds-cases m e o texts stop = inl (refl, refl)
Holds-cases m e o texts (skip g z h) = inr (inl (g, (z, h)))
Holds-cases m e o texts (text g h) = inr (inr (g, (_, refl, h)))
