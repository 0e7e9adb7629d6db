-- ===== src/Store/Added.antt =====
-- A new record in the file of daemon/store.c: its size by store_file_alloc(), its key and value by
-- store_put().
use infod.Prelude.{
  ℕ, zero, suc, ◌+◌, ◌^◌, ◌≤◌, ◌<◌, ◌≡◌, refl, ◌∙◌, ap, true, false, List, [], ◌∷◌, ◌++◌, ◌==◌, All,
  length, arith,
}
use infod.Store.Record.{
  Bytes, read16, write16, write, slice, entry_at, info_size, record_is_gap, record_get_size,
}
use infod.Store.Gap.{write16-at, read16-write16, poke_bytes}
use infod.Store.Layout.{Holds, stop, skip, text, IsByte}

-- One more record at the end.
pub Holds-snoc :
    (m : Bytes) (e o : ℕ) (texts : List (List ℕ))
    → record_is_gap m e ≡ false
    → Holds m e o texts
    → Holds m (e + record_get_size m e) o (texts ++ entry_at m e ∷ [])
Holds-snoc m e o texts g stop = text g stop
Holds-snoc m e o texts g (skip f z h) = skip f z (Holds-snoc m e _ texts g h)
Holds-snoc m e o texts g (text f h) = text f (Holds-snoc m e _ _ g h)

write_below : (o x : ℕ) (bs : List ℕ) (m : Bytes) → x < o → write o bs m x ≡ m x
write_below o x [] m h = refl
write_below o x (b ∷ bs) m h =
    let other : (x == o) ≡ false = ground (arith, h) in
    rw other (write_below (o + 1) x bs m (omega arith))

write_above : (o x : ℕ) (bs : List ℕ) (m : Bytes) → o + length bs ≤ x → write o bs m x ≡ m x
write_above o x [] m h = refl
write_above o x (b ∷ bs) m h =
    let other : (x == o) ≡ false = ground (arith, h) in
    rw other (write_above (o + 1) x bs m (omega (arith, h)))

pub write_bytes :
    (o : ℕ) (bs : List ℕ) (m : Bytes) → All (λ b. b < 2 ^ 8) bs → IsByte m → IsByte (write o bs m)
write_bytes o [] m a h = h
write_bytes o (b ∷ bs) m a h = poke_bytes o b _ a.0 (write_bytes (o + 1) bs m a.1 h)

slice_same : (m m' : Bytes) (o n : ℕ) → ((x : ℕ) → o ≤ x → m' x ≡ m x) → slice m' o n ≡ slice m o n
slice_same m m' o zero h = refl
slice_same m m' o (suc n) h =
    rw (h o (omega arith), slice_same m m' (o + 1) n (λ x l. h x (omega (arith, l)))) refl

slice-write : (o : ℕ) (bs : List ℕ) (m : Bytes) → slice (write o bs m) o (length bs) ≡ bs
slice-write o [] m = refl
slice-write o (b ∷ bs) m =
    let here : (o == o) ≡ true = ground arith in
    let rest : slice (write o (b ∷ bs) m) (o + 1) (length bs)
        ≡ slice (write (o + 1) bs m) (o + 1) (length bs) =
      slice_same (write (o + 1) bs m) (write o (b ∷ bs) m) (o + 1) (length bs)
        (λ x l. let other : (x == o) ≡ false = ground (arith, l) in rw other refl) in
    rw (here, rest, slice-write (o + 1) bs m) refl

-- The record with this key and value.
abbrev pub new_text : ℕ → List ℕ → Bytes → Bytes
new_text o keyvalue m = write (o + 2) keyvalue (write16 o (length keyvalue) m)

new_text-read16 :
    (o : ℕ) (kv : List ℕ) (m : Bytes) → length kv < 2 ^ 16 → read16 (new_text o kv m) o ≡ length kv
new_text-read16 o kv m h = omega (
  arith,
  write_below (o + 2) o kv (write16 o (length kv) m) (omega arith),
  write_below (o + 2) (o + 1) kv (write16 o (length kv) m) (omega arith),
  read16-write16 o (length kv) m h,
)

pub new_text_entry :
    (o : ℕ) (kv : List ℕ) (m : Bytes) → length kv < 2 ^ 16 → entry_at (new_text o kv m) o ≡ kv
unfolding entry_at
new_text_entry o kv m h =
    ap (slice (new_text o kv m) (o + 2)) (new_text-read16 o kv m h)
    ∙ slice-write (o + 2) kv (write16 o (length kv) m)

pub new_text-is_gap :
    (o : ℕ) (kv : List ℕ) (m : Bytes)
    → length kv < 2 ^ 16
    → 0 < length kv
    → record_is_gap (new_text o kv m) o ≡ false
unfolding record_is_gap
new_text-is_gap o kv m h n = rw (new_text-read16 o kv m h) (ground (arith, n))

pub new_text_size :
    (o : ℕ) (kv : List ℕ) (m : Bytes)
    → length kv < 2 ^ 16
    → 0 < length kv
    → record_get_size (new_text o kv m) o ≡ info_size (length kv)
unfolding record_get_size
new_text_size o kv m h n = rw (new_text-is_gap o kv m h n, new_text-read16 o kv m h) refl

pub new_text_below : (o x : ℕ) (kv : List ℕ) (m : Bytes) → x < o → new_text o kv m x ≡ m x
new_text_below o x kv m h =
    write_below (o + 2) x kv (write16 o (length kv) m) (omega arith)
    ∙ write16-at o (length kv) x m (λ e. omega (arith, h, e)) (λ e. omega (arith, h, e))

pub new_text_above :
    (o x : ℕ) (kv : List ℕ) (m : Bytes) → o + 2 + length kv ≤ x → new_text o kv m x ≡ m x
new_text_above o x kv m h =
    write_above (o + 2) x kv (write16 o (length kv) m) h
    ∙ write16-at o (length kv) x m (λ e. absurd (omega (arith, h, e)))
        (λ e. absurd (omega (arith, h, e)))
