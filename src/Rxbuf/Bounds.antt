-- ===== src/Rxbuf/Bounds.antt =====
-- The receive buffer keeps its bytes and stays within its allocation.
use infod.Prelude.{
  ℕ, zero, suc, ◌+◌, ◌-◌, ◌≤◌, ◌<◌, ◌≡◌, refl, ◌∙◌, ap, Bool, true, false, List, [], ◌∷◌, ◌++◌,
  arith, ltb, leb, ◌==◌, length, take, drop, length-append, length-take, length-drop, inl, inr,
  Bool-cases,
}
use mathlib.Core.Path.{sym, ap₂}
use mathlib.Core.List.{append_assoc}
use infod.Rxbuf.{
  Rxbuf, Call, done, failed, aborted, size_chunk, active, roundup, write_at, resize, resize_to,
}

-- The bytes in use have been written, and no byte is written outside the allocation.
pub record IsValid (rx : Rxbuf) : Type 0 where
  pub written : rx.len ≤ length rx.buf
  pub fits : length rx.buf ≤ rx.max

pub roundup-ge : (n : ℕ) → n ≤ roundup n size_chunk
unfolding roundup
roundup-ge n = ground arith

pub roundup-lt : (n : ℕ) → roundup n size_chunk < n + size_chunk
unfolding roundup
roundup-lt n = ground arith

module _ {ℓ} {A : Type ℓ} where
  pub take-take : (m n : ℕ) (xs : List A) → m ≤ n → take m (take n xs) ≡ take m xs
  take-take zero n xs h = refl
  take-take (suc m) zero xs h = elim h [ ]
  take-take (suc m) (suc n) [] h = refl
  take-take (suc m) (suc n) (x ∷ xs) h = ap (λ l. x ∷ l) (take-take m n xs (omega arith))

  pub take-length-append : (a r : List A) → take (length a) (a ++ r) ≡ a
  take-length-append [] r = refl
  take-length-append (x ∷ a) r = ap (λ l. x ∷ l) (take-length-append a r)

  length-take_le : (n : ℕ) (xs : List A) → n ≤ length xs → length (take n xs) ≡ n
  length-take_le n xs h = omega (arith, length-take n xs)

  -- The prefix that ends behind the written bytes.
  pub take-write :
      (n : ℕ) (p xs r : List A)
      → n ≤ length xs
      → take (n + length p) (take n xs ++ (p ++ r)) ≡ take n xs ++ p
  take-write n p xs r h =
      let size : length (take n xs ++ p) ≡ n + length p =
        length-append (take n xs) p ∙ ap (λ k. k + length p) (length-take_le n xs h) in
      ap₂ take (sym size) (sym (append_assoc (take n xs) p r))
      ∙ take-length-append (take n xs ++ p) r

-- What a call that returns 0 guarantees, and that it returns 0.
abbrev pub Ensures : Call → (Rxbuf → Type 0) → Type 0
Ensures (done rx) P = P rx
Ensures _ P = ⊥

pub length-write :
    (n : ℕ) (p xs : List ℕ)
    → n ≤ length xs
    → length (write_at n p xs) ≡ n + length p + (length xs - (n + length p))
length-write n p xs h = omega (
  arith,
  length-append (take n xs) (p ++ drop (n + length p) xs),
  length-append p (drop (n + length p) xs),
  length-take n xs,
  length-drop (n + length p) xs,
)

-- What a resize leaves alone.
abbrev pub SameBytes : Rxbuf → Rxbuf → Type 0
SameBytes rx r = IsValid r × (r.len ≡ rx.len) × (active r ≡ active rx)

-- A resize to n bytes made room for them, or changed nothing; it did not fail its assertion.
abbrev pub Resized : Rxbuf → ℕ → Call → Type 0
Resized rx n (done r) = SameBytes rx r × (n ≤ r.max)
Resized rx n (failed r) = r ≡ rx
Resized rx n aborted = ⊥

realloc-SameBytes :
    (rx : Rxbuf) (size : ℕ)
    → IsValid rx
    → rx.len ≤ size
    → SameBytes rx (record rx { buf = take size rx.buf; max = size })
realloc-SameBytes rx size v h = (
  record {
    written = omega (arith, v.written, length-take size rx.buf);
    fits = omega (arith, length-take size rx.buf);
  },
  refl,
  take-take rx.len size rx.buf h,
)

Resized-le : (rx : Rxbuf) (n size : ℕ) (c : Call) → n ≤ size → Resized rx size c → Resized rx n c
Resized-le rx n size (done r) l h = (h.0, omega (arith, h.1))
Resized-le rx n size (failed r) l h = h
Resized-le rx n size aborted l h = h

module _ (can_alloc : ℕ → Bool) where
  resize_to-Resized :
      (rx : Rxbuf) (size : ℕ)
      → IsValid rx
      → rx.len ≤ size
      → Resized rx size (resize_to can_alloc rx size)
  unfolding resize_to
  resize_to-Resized rx size v h =
      let e : ltb size rx.len ≡ false = ground arith in
      rw e (elim (Bool-cases (rx.max == size)) [
        | inl f ↦ rw f ((v, refl, refl), ground arith)
        | inr f ↦ rw f (elim (Bool-cases (can_alloc size)) [
          | inl g ↦ rw g (realloc-SameBytes rx size v h, omega arith)
          | inr g ↦ rw g refl
        ])
      ])

  -- A resize that makes room for the bytes in use never fails its assertion, and keeps them.
  pub resize-Resized :
      (rx : Rxbuf) (n : ℕ) → IsValid rx → rx.len ≤ n → Resized rx n (resize can_alloc rx n)
  unfolding resize
  resize-Resized rx n v h = elim (Bool-cases (leb 0x10000 n)) [
    | inl e ↦ rw e refl
    | inr e ↦ rw e (
        Resized-le rx n (roundup n size_chunk) _ (roundup-ge n)
          (resize_to-Resized rx (roundup n size_chunk) v (omega (arith, h, roundup-ge n))))
  ]

  resize_to-ensures :
      (rx : Rxbuf) (size : ℕ)
      → IsValid rx
      → rx.len ≤ size
      → can_alloc size ≡ true
      → Ensures (resize_to can_alloc rx size) (λ r. SameBytes rx r × (r.max ≡ size))
  unfolding resize_to
  resize_to-ensures rx size v h all =
      let e : ltb size rx.len ≡ false = ground arith in
      rw e (elim (Bool-cases (rx.max == size)) [
        | inl f ↦ rw f ((v, refl, refl), ground arith)
        | inr f ↦ rw f (rw all (realloc-SameBytes rx size v h, refl))
      ])

  -- Where realloc() grants memory, and n is below 2^16, there is room for n bytes.
  pub resize-ensures :
      (rx : Rxbuf) (n : ℕ)
      → IsValid rx
      → rx.len ≤ n
      → n < 0x10000
      → ((k : ℕ) → can_alloc k ≡ true)
      → Ensures (resize can_alloc rx n) (λ r. SameBytes rx r × (r.max ≡ roundup n size_chunk))
  unfolding resize
  resize-ensures rx n v h l all =
      let e : leb 0x10000 n ≡ false = ground arith in
      rw e (resize_to-ensures rx (roundup n size_chunk) v (omega (arith, h, roundup-ge n)) (all _))

  pub resize-refuses : (rx : Rxbuf) (n : ℕ) → 0x10000 ≤ n → resize can_alloc rx n ≡ failed rx
  unfolding resize
  resize-refuses rx n h = let e : leb 0x10000 n ≡ true = ground arith in rw e refl
