-- ===== src/Proto/Binary/Feed/Packet.antt =====
-- A packet that output_binary of lib/protobin.c sends, as recv_binary takes it in.
use infod.Prelude.{
  ℕ, ◌+◌, ◌/◌, ◌%◌, ◌≤◌, ◌<◌, ◌≡◌, refl, sym, ◌∙◌, ap, ℤ, pos, negsuc, Bool, true, false, some,
  List, [], ◌∷◌, ◌++◌, arith, ltb, leb, length, take, ltb→lt, inl, inr, Bool-cases,
}
use mathlib.Core.Path.{subst}
use mathlib.Core.List.{append-nil}
use infod.Proto.Base.{Callbacks, Output, wire}
use infod.Proto.Base
use infod.Proto.Format.{Arg, int, ptr, pieces, to_binary_iov}
use infod.Proto.Binary.{length_field, header, pack, output_binary}
use infod.Proto.Binary.Feed.{
  more, ended, hand_over, hand_to, call_up, is_complete, settle, is_too_long, arrive, and_then,
  feed,
}
use infod.Proto.Binary.Feed.Bytes.{feed-run}
use infod.Rxbuf.{Rxbuf, active}
use infod.Proto.Binary.Feed.Buffer.{IsReady, Matches, EndsWith}
use infod.Proto.Binary.Feed.Stream.{stream, recv_pieces, recv_pieces-Matches}

-- The pieces of a packet, in one text.
abbrev pub packet : ℕ → List ℕ → List ℕ
packet msg body = header msg (length body) ++ body

length_field-packet :
    (msg : ℕ) (body : List ℕ) → length body < 0x10000 → length_field (packet msg body) ≡ length body
unfolding length_field
length_field-packet msg body h = omega arith

length_field-header : (msg n : ℕ) → n < 0x10000 → length_field (header msg n) ≡ n
unfolding length_field
length_field-header msg n h = omega arith

take-length {ℓ} : {A : Type ℓ} (xs : List A) → take (length xs) xs ≡ xs
take-length [] = refl
take-length (x ∷ xs) = ap (λ l. x ∷ l) (take-length xs)

module _ {W : Type 0} (cb : Callbacks W) where
  nothing_pending : is_too_long cb [] ≡ false
  unfolding is_too_long
  nothing_pending = refl

  header_fits : (msg n : ℕ) → n < 65533 → is_too_long cb (header msg n) ≡ false
  unfolding is_too_long
  header_fits msg n h = ground (arith, length_field-header msg n (omega arith))

  header_too_long : (msg n : ℕ) → 65533 ≤ n → n < 0x10000 → is_too_long cb (header msg n) ≡ true
  unfolding is_too_long
  header_too_long msg n l h = ground (arith, length_field-header msg n h)

  settle-header :
      (msg d : ℕ) (body : List ℕ) (w : W)
      → length (d ∷ body) < 0x10000
      → settle cb (header msg (length (d ∷ body))) w ≡ more (header msg (length (d ∷ body))) w
  unfolding settle is_complete length_field
  settle-header msg d body w h = ground arith

  settle-packet :
      (msg : ℕ) (body : List ℕ) (w : W)
      → length body < 0x10000
      → settle cb (packet msg body) w ≡ hand_over cb (packet msg body) w
  unfolding settle is_complete
  settle-packet msg body w h = ground (arith, length_field-packet msg body h)

  -- The header, and then the data, each at once.
  feed-packet :
      (msg : ℕ) (body rest : List ℕ) (w : W)
      → length body < 65533
      → feed cb (packet msg body ++ rest) [] w
        ≡ and_then cb (hand_over cb (packet msg body) w) (feed cb rest)
  feed-packet msg [] rest w h =
      feed-run cb [] msg (0 / 256 % 256 ∷ 0 % 256 ∷ []) rest w nothing_pending (omega arith)
      ∙ ap (λ o. and_then cb o (feed cb rest)) (settle-packet msg [] w (omega arith))
  feed-packet msg (d ∷ body) rest w h =
      let n = length (d ∷ body) in
      feed-run cb [] msg (n / 256 % 256 ∷ n % 256 ∷ []) (d ∷ (body ++ rest)) w nothing_pending
        (omega arith)
      ∙ ap (λ o. and_then cb o (feed cb (d ∷ (body ++ rest))))
          (settle-header msg d body w (omega arith))
      ∙ feed-run cb (header msg n) d body rest w (header_fits msg n (omega arith))
          (omega (arith, length_field-header msg n (omega arith)))
      ∙ ap (λ o. and_then cb o (feed cb rest)) (settle-packet msg (d ∷ body) w (omega arith))

  hand_over-oversize :
      (f : ℕ → List ℕ → W → ℤ × W) (msg : ℕ) (body : List ℕ) (w : W)
      → cb.on_input ≡ some f
      → 65532 ≤ length body
      → hand_over cb (packet msg body) w ≡ ended (negsuc 0) w
  unfolding hand_over call_up
  hand_over-oversize f msg body w e l =
      let big : leb 0x10000 (length (packet msg body) + 1) ≡ true = ground arith in
      ap (λ o. hand_to cb o (packet msg body) w) e ∙ rw big refl

  -- A packet with more data than the buffer has room for ends the connection.
  feed-oversize :
      (f : ℕ → List ℕ → W → ℤ × W) (msg d : ℕ) (body rest : List ℕ) (w : W)
      → cb.on_input ≡ some f
      → 65532 ≤ length (d ∷ body)
      → length (d ∷ body) < 0x10000
      → feed cb (packet msg (d ∷ body) ++ rest) [] w ≡ ended (negsuc 0) w
  feed-oversize f msg d body rest w e l h = elim (Bool-cases (ltb (length (d ∷ body)) 65533)) [
    | inl s ↦
        feed-packet msg (d ∷ body) rest w (ltb→lt _ _ s)
        ∙ ap (λ o. and_then cb o (feed cb rest)) (hand_over-oversize f msg (d ∷ body) w e l)
    | inr s ↦
        feed-run cb [] msg (length (d ∷ body) / 256 % 256 ∷ length (d ∷ body) % 256 ∷ [])
          (d ∷ (body ++ rest)) w nothing_pending (omega arith)
        ∙ ap (λ o. and_then cb o (feed cb (d ∷ (body ++ rest)))) (settle-header msg d body w h)
        ∙ unfold feed arrive in rw (header_too_long msg (length (d ∷ body)) (ground arith) h) refl
  ]

-- The format "%*s" with its length and its bytes.
abbrev pub bytes_format : List ℕ
bytes_format = b'%' ∷ b'*' ∷ b's' ∷ []

abbrev pub bytes_args : List ℕ → List Arg
bytes_args body = int (length body) ∷ ptr body ∷ []

to_binary_iov-bytes :
    (body : List ℕ) → to_binary_iov 9 16 bytes_format (bytes_args body) ≡ pieces (body ∷ [])
unfolding to_binary_iov
to_binary_iov-bytes body =
    let fits : ltb (length body) (length body) ≡ false = ground arith in
    rw fits (rw (take-length body) refl)

output_binary-wire :
    (msg : ℕ) (body net : List ℕ)
    → length body < 0x10000
    → output_binary wire msg bytes_format (bytes_args body) net
      ≡ Base.returned (pos 0) (net ++ packet msg body)
unfolding output_binary
output_binary-wire msg body net h =
    ap (λ p. pack wire msg p net) (to_binary_iov-bytes body)
    ∙ (let size : length body + 0 ≡ length body = omega arith in
        let fits : ltb 0xffff (length body) ≡ false = ground arith in simp (size, fits, append-nil))

-- A packet with 65532 to 65535 bytes of data is sent by output_binary() like any other, and it makes
-- recv_binary() return -1, with no call of on_input(), whatever the pieces.
pub binary_gap :
    {W : Type 0} (can_alloc : ℕ → Bool)
    → ((k : ℕ) → can_alloc k ≡ true)
    → (cb : Callbacks W) (f : ℕ → List ℕ → W → ℤ × W) (msg : ℕ) (body net : List ℕ)
      (l : List (ℕ × List ℕ)) (rx : Rxbuf) (w : W)
    → cb.on_input ≡ some f
    → 65532 ≤ length body
    → length body < 0x10000
    → stream l ≡ packet msg body
    → IsReady rx
    → active rx ≡ []
    → (output_binary wire msg bytes_format (bytes_args body) net
        ≡ Base.returned (pos 0) (net ++ packet msg body))
      × EndsWith (negsuc 0) w (recv_pieces can_alloc cb l rx w)
binary_gap can_alloc grants cb f msg [] net l rx w e hl h s ready idle = absurd (omega arith)
binary_gap can_alloc grants cb f msg (d ∷ body) net l rx w e hl h s ready idle = (
  output_binary-wire msg (d ∷ body) net h,
  subst (Matches 0 (recv_pieces can_alloc cb l rx w))
      (ap (λ p. feed cb (stream l) p w) idle
        ∙ ap (λ t. feed cb t [] w) (s ∙ sym (append-nil (packet msg (d ∷ body))))
        ∙ feed-oversize cb f msg d body [] w e hl h)
      (recv_pieces-Matches can_alloc grants cb l rx w ready),
)
