-- ===== src/Rxbuf/Append.antt =====
-- Writing to the receive buffer: a call appends its bytes, or returns -1 and changes nothing.
use mathlib.Core.Path.{sym}
use infod.Prelude.{
  ℕ, zero, suc, ◌+◌, ◌-◌, ◌≤◌, ◌<◌, ◌≡◌, refl, ◌∙◌, ap, Bool, true, some, List, [], ◌∷◌, ◌++◌,
  arith, leb, length, take, drop, get_elem?, length-take, inl, inr, Bool-cases,
}
use infod.Rxbuf.{
  Rxbuf, Call, done, failed, aborted, active, write_at, on_done, resize, addc, add, clear, zeropad,
  store_byte, store_bytes,
}
use infod.Rxbuf.Bounds.{
  IsValid, Ensures, SameBytes, Resized, resize-Resized, resize-ensures, resize-refuses, take-write,
  length-write, take-take, take-length-append,
}

-- The result of a call that is to append `p`.
abbrev pub Appends : Rxbuf → List ℕ → Call → Type 0
Appends rx p (done r) = IsValid r × (r.len ≡ rx.len + length p) × (active r ≡ active rx ++ p)
Appends rx p (failed r) = SameBytes rx r
Appends rx p aborted = ⊥

write-Appends :
    (rx r : Rxbuf) (p : List ℕ)
    → SameBytes rx r
    → r.len + length p ≤ r.max
    → Appends rx p (done (record r { buf = write_at r.len p r.buf; len = r.len + length p }))
write-Appends rx r p (v, l, a) m = (
  record {
    written = omega (arith, length-write r.len p r.buf v.written);
    fits = omega (arith, length-write r.len p r.buf v.written, v.fits);
  },
  omega arith,
  take-write r.len p r.buf (drop (r.len + length p) r.buf) v.written ∙ ap (λ l. l ++ p) a,
)

on_done-Appends :
    (rx : Rxbuf) (n : ℕ) (p : List ℕ) (c : Call) (k : Rxbuf → Call)
    → IsValid rx
    → Resized rx n c
    → ((r : Rxbuf) → SameBytes rx r → n ≤ r.max → Appends rx p (k r))
    → Appends rx p (on_done c k)
on_done-Appends rx n p (done r) k v h f = f r h.0 h.1
on_done-Appends rx n p (failed r) k v h f = rw h (v, refl, refl)
on_done-Appends rx n p aborted k v h f = elim h [ ]

-- The buffer behind the bytes in use starts with a NUL.
abbrev pub IsPadded : Rxbuf → Type 0
IsPadded r = get_elem? r.buf r.len ≡ some 0

-- What zeropad() gives: the same bytes with a NUL behind them, or the same bytes and -1.
abbrev pub Pads : Rxbuf → Call → Type 0
Pads rx (done r) = SameBytes rx r × IsPadded r
Pads rx (failed r) = SameBytes rx r
Pads rx aborted = ⊥

module _ {ℓ} {A : Type ℓ} where
  get_elem?-take : (n i : ℕ) (xs : List A) → i < n → get_elem? (take n xs) i ≡ get_elem? xs i
  get_elem?-take zero i xs h = elim h [ ]
  get_elem?-take (suc n) i [] h = refl
  get_elem?-take (suc n) zero (x ∷ xs) h = refl
  get_elem?-take (suc n) (suc i) (x ∷ xs) h = get_elem?-take n i xs (omega arith)

  get_elem?-append_length :
      (xs ys : List A) (a : A) → get_elem? (xs ++ (a ∷ ys)) (length xs) ≡ some a
  get_elem?-append_length [] ys a = refl
  get_elem?-append_length (x ∷ xs) ys a = get_elem?-append_length xs ys a

pub length-active : (rx : Rxbuf) → IsValid rx → length (active rx) ≡ rx.len
length-active rx v = omega (arith, length-take rx.len rx.buf, v.written)

-- Dropping the NUL from the bytes in use again.
pad-back :
    (rx r : Rxbuf)
    → IsValid rx
    → Appends rx (0 ∷ []) (done r)
    → Pads rx (done (record r { len = r.len - 1 }))
pad-back rx r v (w, l, a) =
    let back : r.len - 1 ≡ rx.len = omega arith in
    let size : length (active rx) ≡ rx.len = length-active rx v in
    (
      (
        record { written = omega (arith, w.written); fits = w.fits },
        back,
        ap (λ n. take n r.buf) back
            ∙ sym (take-take rx.len r.len r.buf (omega arith))
            ∙ ap (take rx.len) a
            ∙ ap (λ n. take n (active rx ++ (0 ∷ []))) (sym size)
            ∙ take-length-append (active rx) (0 ∷ []),
      ),
      ap (get_elem? r.buf) back
          ∙ sym (get_elem?-take r.len rx.len r.buf (omega arith))
          ∙ ap (λ l. get_elem? l rx.len) a
          ∙ ap (get_elem? (active rx ++ (0 ∷ []))) (sym size)
          ∙ get_elem?-append_length (active rx) [] 0,
    )

pad-Pads :
    (rx : Rxbuf) (c : Call)
    → IsValid rx
    → Appends rx (0 ∷ []) c
    → Pads rx (on_done c (λ r. done (record r { len = r.len - 1 })))
pad-Pads rx (done r) v h = pad-back rx r v h
pad-Pads rx (failed r) v h = h
pad-Pads rx aborted v h = h

module _ (can_alloc : ℕ → Bool) where
  -- From a valid buffer add() never aborts: it appends exactly the given bytes and returns 0, or it
  -- returns -1 and leaves the bytes in use as they were; the buffer stays valid.
  pub add-Appends : (rx : Rxbuf) (p : List ℕ) → IsValid rx → Appends rx p (add can_alloc rx p)
  unfolding add
  add-Appends rx p v =
      on_done-Appends rx (rx.len + length p) p (resize can_alloc rx (rx.len + length p))
        (store_bytes can_alloc p) v
        (resize-Resized can_alloc rx (rx.len + length p) v (omega arith))
        (λ r s m. write-Appends rx r p s (omega (arith, s.1)))

  -- So does addc() with its one byte.
  pub addc-Appends :
      (rx : Rxbuf) (ch : ℕ) → IsValid rx → Appends rx (ch ∷ []) (addc can_alloc rx ch)
  unfolding addc
  addc-Appends rx ch v = elim (Bool-cases (leb rx.max rx.len)) [
    | inl e ↦ rw e (
        on_done-Appends rx (rx.len + 1) (ch ∷ []) (resize can_alloc rx (rx.len + 1))
          (store_byte can_alloc ch) v (resize-Resized can_alloc rx (rx.len + 1) v (omega arith))
          (λ r s m. write-Appends rx r (ch ∷ []) s (omega (arith, s.1))))
    | inr e ↦ rw e (write-Appends rx rx (ch ∷ []) (v, refl, refl) (ground arith))
  ]

  -- From a valid buffer zeropad() never aborts: the bytes in use stay, and if it returns 0 a NUL
  -- follows them.
  pub zeropad-Pads : (rx : Rxbuf) → IsValid rx → Pads rx (zeropad can_alloc rx)
  unfolding zeropad
  zeropad-Pads rx v = pad-Pads rx (add can_alloc rx (0 ∷ [])) v (add-Appends rx (0 ∷ []) v)

abbrev Always : Rxbuf → Type 0
Always r = Unit

Ensures-on_done :
    (c : Call) (P : Rxbuf → Type 0) (k : Rxbuf → Call)
    → Ensures c P
    → ((r : Rxbuf) → Ensures (k r) Always)
    → Ensures (on_done c k) Always
Ensures-on_done (done r) P k h f = f r
Ensures-on_done (failed r) P k h f = elim h [ ]
Ensures-on_done aborted P k h f = elim h [ ]

Ensures-Appends :
    (rx : Rxbuf) (p : List ℕ) (c : Call)
    → Ensures c Always
    → Appends rx p c
    → (r : Rxbuf) × (c ≡ done r) × Appends rx p (done r)
Ensures-Appends rx p (done r) e h = (r, refl, h)
Ensures-Appends rx p (failed r) e h = elim e [ ]
Ensures-Appends rx p aborted e h = elim e [ ]

Ensures-Pads :
    (rx : Rxbuf) (c : Call)
    → Ensures c Always
    → Pads rx c
    → (r : Rxbuf) × (c ≡ done r) × Pads rx (done r)
Ensures-Pads rx (done r) e h = (r, refl, h)
Ensures-Pads rx (failed r) e h = elim e [ ]
Ensures-Pads rx aborted e h = elim e [ ]

Ensures-value : (c : Call) (P : Rxbuf → Type 0) → Ensures c P → (r : Rxbuf) × (c ≡ done r) × P r
Ensures-value (done r) P h = (r, refl, h)
Ensures-value (failed r) P h = elim h [ ]
Ensures-value aborted P h = elim h [ ]

-- Where memory is granted, a call returns 0 below the limit of 2^16 bytes.
module _ (can_alloc : ℕ → Bool) (grants : (k : ℕ) → can_alloc k ≡ true) where
  pub resize-done :
      (rx : Rxbuf) (n : ℕ)
      → IsValid rx
      → rx.len ≤ n
      → n < 0x10000
      → (r : Rxbuf) × (resize can_alloc rx n ≡ done r) × SameBytes rx r
  resize-done rx n v h l =
      let (r, e, p) = Ensures-value _ _ (resize-ensures can_alloc rx n v h l grants) in (r, e, p.0)

  add-Always :
      (rx : Rxbuf) (p : List ℕ)
      → IsValid rx
      → rx.len + length p < 0x10000
      → Ensures (add can_alloc rx p) Always
  unfolding add store_bytes
  add-Always rx p v l =
      Ensures-on_done _ _ (store_bytes can_alloc p)
        (resize-ensures can_alloc rx (rx.len + length p) v (omega arith) l grants) (λ r. tt)

  addc-Always :
      (rx : Rxbuf) (ch : ℕ)
      → IsValid rx
      → rx.len + 1 < 0x10000
      → Ensures (addc can_alloc rx ch) Always
  unfolding addc
  addc-Always rx ch v l = elim (Bool-cases (leb rx.max rx.len)) [
    | inl e ↦ rw e (
        Ensures-on_done _ _ (store_byte can_alloc ch)
          (resize-ensures can_alloc rx (rx.len + 1) v (omega arith) l grants) (λ r. tt))
    | inr e ↦ rw e tt
  ]

  pub addc-done :
      (rx : Rxbuf) (ch : ℕ)
      → IsValid rx
      → rx.len + 1 < 0x10000
      → (r : Rxbuf) × (addc can_alloc rx ch ≡ done r) × Appends rx (ch ∷ []) (done r)
  addc-done rx ch v l =
      Ensures-Appends rx (ch ∷ []) _ (addc-Always rx ch v l) (addc-Appends can_alloc rx ch v)

  pub add-done :
      (rx : Rxbuf) (p : List ℕ)
      → IsValid rx
      → rx.len + length p < 0x10000
      → (r : Rxbuf) × (add can_alloc rx p ≡ done r) × Appends rx p (done r)
  add-done rx p v l = Ensures-Appends rx p _ (add-Always rx p v l) (add-Appends can_alloc rx p v)

  pub zeropad-done :
      (rx : Rxbuf)
      → IsValid rx
      → rx.len + 1 < 0x10000
      → (r : Rxbuf) × (zeropad can_alloc rx ≡ done r) × Pads rx (done r)
  unfolding zeropad
  zeropad-done rx v l =
      Ensures-Pads rx _
        (Ensures-on_done (add can_alloc rx (0 ∷ [])) Always _ (add-Always rx (0 ∷ []) v l)
          (λ r. tt))
        (zeropad-Pads can_alloc rx v)

  pub clear-done :
      (rx : Rxbuf) (n : ℕ)
      → IsValid rx
      → n < 0x10000
      → (r : Rxbuf) × (clear can_alloc rx n ≡ done r) × IsValid r × (r.len ≡ 0)
  unfolding clear
  clear-done rx n v l =
      let start : IsValid (record rx { len = 0 }) = record {
        written = omega arith;
        fits = v.fits;
      } in
      let (r, e, p) = resize-done (record rx { len = 0 }) n start (omega arith) l in
      (r, e, p.0, p.1)

pub zeropad-refuses :
    (can_alloc : ℕ → Bool) (rx : Rxbuf) → 0x10000 ≤ rx.len + 1 → zeropad can_alloc rx ≡ failed rx
unfolding zeropad add
zeropad-refuses can_alloc rx h = rw (resize-refuses can_alloc rx (rx.len + 1) h) refl
