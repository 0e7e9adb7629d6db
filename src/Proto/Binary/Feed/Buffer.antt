-- ===== src/Proto/Binary/Feed/Buffer.antt =====
-- The buffer of the binary decoder between and within the rounds of its loop.
use infod.Prelude.{
  ℕ, zero, suc, ◌+◌, ◌%◌, ◌≤◌, ◌<◌, ◌≡◌, refl, sym, ◌∙◌, ap, inl, inr, ℤ, pos, negsuc, List, [],
  ◌∷◌, ◌++◌, arith, leb, leb→le, length, take, drop, length-append, take-append-drop, Bool-cases,
}
use mathlib.Core.Path.{ap₂}
use infod.Rxbuf.{Rxbuf, active}
use infod.Rxbuf.Bounds.{IsValid, SameBytes}
use infod.Rxbuf.Append.{length-active}
use infod.Proto.Binary.{
  byte_at, length_field, binary_pkt_len, Recv, returned, aborted, spins, target, lacking,
}
use infod.Proto.Binary.Feed.{Fed, more, ended, packet_size}
use infod.Proto.Binary.Feed.Bytes.{goal, length_field-append, byte_at-append}

-- The buffer between two rounds: the header or the packet is not complete.
abbrev pub IsReady : Rxbuf → Type 0
IsReady rx = IsValid rx × (length (active rx) < goal (active rx))

-- The buffer behind its bytes in use.
pub split_buf : (rx : Rxbuf) → rx.buf ≡ active rx ++ drop rx.len rx.buf
split_buf rx = sym (take-append-drop rx.len rx.buf)

pub length_field-active :
    (rx : Rxbuf) → IsValid rx → 3 ≤ rx.len → length_field rx.buf ≡ length_field (active rx)
length_field-active rx v h =
    ap length_field (split_buf rx)
    ∙ length_field-append (active rx) (drop rx.len rx.buf) (omega (arith, length-active rx v))

pub length_field-lt : (l : List ℕ) → length_field l < 0x10000
unfolding length_field
length_field-lt l = omega arith

pub binary_pkt_len-active :
    (rx : Rxbuf) → IsValid rx → 3 ≤ rx.len → binary_pkt_len rx ≡ length_field (active rx)
unfolding binary_pkt_len
binary_pkt_len-active rx v h = ground (arith, length_field-active rx v h)

pub target-goal : (rx : Rxbuf) → IsValid rx → target rx ≡ goal (active rx)
target-goal rx v = elim (Bool-cases (leb 3 rx.len)) [
  | inl e ↦ ground (arith, length-active rx v, binary_pkt_len-active rx v (leb→le 3 rx.len e))
  | inr e ↦ ground (arith, length-active rx v)
]

pub lacking-goal :
    (rx : Rxbuf) → IsReady rx → (lacking rx + rx.len ≡ goal (active rx)) × (0 < lacking rx)
lacking-goal rx (v, s) =
    ground (arith, length-active rx v, target-goal rx v, length_field-lt (active rx))

-- The code goes on with the bytes `pending`, in a valid buffer, and returns `k` at least.
abbrev pub GoesOn : {W : Type 0} → ℕ → List ℕ → W → Recv W → Type 0
GoesOn k pending w (returned (pos m) rx w') =
    IsReady rx × (active rx ≡ pending) × (w' ≡ w) × (k ≤ m)
GoesOn k pending w _ = ⊥

abbrev pub EndsWith : {W : Type 0} → ℤ → W → Recv W → Type 0
EndsWith n w (returned n' rx w') = (n' ≡ n) × (w' ≡ w)
EndsWith n w _ = ⊥

-- A call of the code beside what the decoder gives.
abbrev pub Matches : {W : Type 0} → ℕ → Recv W → Fed W → Type 0
Matches k r (more pending w) = GoesOn k pending w r
Matches k r (ended n w) = EndsWith n w r

pub goal-append : (xs ys : List ℕ) → goal xs ≤ goal (xs ++ ys)
goal-append xs ys = elim (Bool-cases (leb 3 (length xs))) [
  | inl e ↦ ground (arith, length-append xs ys, length_field-append xs ys (leb→le 3 (length xs) e))
  | inr e ↦ ground (arith, length-append xs ys)
]

pub length_active_ready : (rx : Rxbuf) → IsReady rx → rx.len < goal (active rx)
length_active_ready rx (v, s) = omega (arith, length-active rx v)

pub Matches-le :
    {W : Type 0} (j k : ℕ) (r : Recv W) (f : Fed W) → j ≤ k → Matches k r f → Matches j r f
Matches-le j k (returned (pos m) rx w') (more pending w) h (a, b, c, d) = (a, b, c, omega arith)
Matches-le j k (returned (negsuc m) rx w') (more pending w) h g = g
Matches-le j k aborted (more pending w) h g = g
Matches-le j k spins (more pending w) h g = g
Matches-le j k r (ended n w) h g = g

pub take-append_le : (n : ℕ) (xs ys : List ℕ) → n ≤ length xs → take n (xs ++ ys) ≡ take n xs
take-append_le zero xs ys h = refl
take-append_le (suc n) [] ys h = elim h [ ]
take-append_le (suc n) (x ∷ xs) ys h = ap (λ l. x ∷ l) (take-append_le n xs ys (omega arith))

pub take-drop-append :
    (n m : ℕ) (xs ys : List ℕ) → length xs ≡ m + n → take n (drop m (xs ++ ys)) ≡ take n (drop m xs)
take-drop-append n zero xs ys h = take-append_le n xs ys (omega arith)
take-drop-append n (suc m) [] ys h = absurd (omega arith)
take-drop-append n (suc m) (x ∷ xs) ys h = take-drop-append n m xs ys (omega arith)

-- The data of a packet is the same in the buffer and in the list of its bytes.
pub packet_data :
    (rx : Rxbuf)
    → IsValid rx
    → rx.len ≡ packet_size (active rx)
    → take (binary_pkt_len rx) (drop 3 rx.buf)
      ≡ take (length_field (active rx)) (drop 3 (active rx))
packet_data rx v h =
    let size : length (active rx) ≡ packet_size (active rx) = length-active rx v ∙ h in
    ap₂ take (binary_pkt_len-active rx v (omega arith)) (ap (drop 3) (split_buf rx))
    ∙ take-drop-append (length_field (active rx)) 3 (active rx) (drop rx.len rx.buf) (omega arith)

-- The padded buffer gives the callback the packet's message number and data.
pub packet_args :
    (rx r : Rxbuf)
    → IsValid rx
    → SameBytes rx r
    → rx.len ≡ packet_size (active rx)
    → (byte_at r.buf 0 % 256 ≡ byte_at (active rx) 0 % 256)
      × (take (binary_pkt_len r) (drop 3 r.buf)
          ≡ take (length_field (active rx)) (drop 3 (active rx)))
packet_args rx r v (w, l, a) full = (
  ap (λ b. b % 256)
      (ap (λ l. byte_at l 0) (split_buf r)
        ∙ byte_at-append (active r) (drop r.len r.buf) 0 (omega (arith, length-active r w))
        ∙ ap (λ l. byte_at l 0) a),
  packet_data r w (l ∙ full ∙ ap packet_size (sym a))
      ∙ ap (λ l. take (length_field l) (drop 3 l)) a,
)
