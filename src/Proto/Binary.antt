-- ===== src/Proto/Binary.antt =====
-- lib/protobin.c: messages as a byte, a 16-bit big-endian length and the data.
pub mod Feed
mod Tests
use infod.Prelude.{
  ℕ, zero, suc, ◌+◌, ◌-◌, ◌*◌, ◌/◌, ◌%◌, ◌^◌, min, ℤ, pos, negsuc, is_positive, Bool, true, false,
  ◌&&◌, ◌||◌, Option, none, some, List, [], ◌∷◌, ◌++◌, ltb, leb, ◌==◌, if◌then◌else◌, length, take,
  drop, get_elem?,
}
use infod.Rxbuf
use infod.Rxbuf.{Rxbuf, Call, done, failed, active, resize, add, clear, zeropad}
use infod.Proto.Base.{Callbacks, send, Output, msg_eof}
use infod.Proto.Format.{Arg, Pieces, pieces, refused, to_binary_iov}
use infod.Proto.Base
use infod.Proto.Format

abbrev pub or_zero : Option ℕ → ℕ
or_zero none = 0
or_zero (some c) = c

-- A byte of the buffer; a byte that was never written reads as 0.
abbrev pub byte_at : List ℕ → ℕ → ℕ
byte_at l i = or_zero (get_elem? l i)

-- The length field, of at least three bytes.
unfoldable pub length_field : List ℕ → ℕ
length_field l = byte_at l 1 % 256 * 256 + byte_at l 2 % 256

-- ~0 as a uint16_t stands for an incomplete header.
unfoldable pub binary_pkt_len : Rxbuf → ℕ
binary_pkt_len rx = if ltb rx.len 3 then 0xffff else length_field rx.buf

-- A call of recv_binary: its value with the buffer and the world, a failed assert(), or a loop that
-- makes no progress.
pub data Recv (W : Type 0) : Type 0 where
  returned : ℤ → Rxbuf → W → Recv W
  aborted spins : Recv W

-- ret += n, where both are positive.
abbrev pub plus : ℤ → ℕ → ℤ
plus (pos m) n = pos (m + n)
plus (negsuc m) n = negsuc m

abbrev pub amount : ℤ → ℕ
amount (pos n) = n
amount (negsuc n) = 0

-- The size of the header, and then of the whole packet.
abbrev pub target : Rxbuf → ℕ
target rx = if ltb rx.len 3 then 3 else 3 + binary_pkt_len rx

-- The number of bytes still lacking, by subtraction of unsigned ints.
abbrev pub lacking : Rxbuf → ℕ
lacking rx = (target rx + 2 ^ 32 - rx.len) % 2 ^ 32

module _ {W : Type 0} (can_alloc : ℕ → Bool) (cb : Callbacks W) where
  abbrev Next : Type 0
  Next = ℕ → Rxbuf → W → Recv W

  -- What the loop does on a call of the buffer: -1 leaves the loop.
  abbrev pub or_fail : Call → W → (Rxbuf → Recv W) → Recv W
  or_fail (done rx) w k = k rx
  or_fail (failed rx) w k = returned (negsuc 0) rx w
  or_fail Call.aborted w k = aborted

  -- The result of rxbuf_add() is not looked at.
  abbrev pub ignore : Call → (Rxbuf → Recv W) → Recv W
  ignore (done rx) k = k rx
  ignore (failed rx) k = k rx
  ignore Call.aborted k = aborted

  -- `rxbuf_clear(&p->rx, 3)` and the next round.
  unfoldable pub next_packet : ℕ → Rxbuf → W → Next → Recv W
  next_packet ret rx w k = or_fail (clear can_alloc rx 3) w (λ r. k ret r w)

  unfoldable pub after_input : ℕ → ℤ × W → Rxbuf → Next → Recv W
  after_input ret (n, w) rx k =
      if is_positive n then next_packet (ret + amount n) rx w k else returned n rx w

  -- The packet's byte and its data, with a NUL behind them.
  unfoldable pub pass_up : (ℕ → List ℕ → W → ℤ × W) → ℕ → Rxbuf → W → Next → Recv W
  pass_up f ret rx w k = or_fail (zeropad can_alloc rx) w (λ r.
      after_input ret (f (byte_at r.buf 0 % 256) (take (binary_pkt_len r) (drop 3 r.buf)) w) r k)

  abbrev pub deliver_to : Option (ℕ → List ℕ → W → ℤ × W) → ℕ → Rxbuf → W → Next → Recv W
  deliver_to none ret rx w k = next_packet ret rx w k
  deliver_to (some f) ret rx w k = pass_up f ret rx w k

  -- A complete packet is handed to the application, if it asks for input.
  unfoldable pub deliver : ℕ → Rxbuf → W → Next → Recv W
  deliver ret rx w k = deliver_to cb.on_input ret rx w k

  -- `p->rx.len >= 3 && p->rx.len == 3 + (sz = binary_pkt_len(&p->rx))`
  unfoldable pub check_packet : ℕ → Rxbuf → W → Next → Recv W
  check_packet ret rx w k =
      if leb 3 rx.len && (rx.len == 3 + binary_pkt_len rx) then deliver ret rx w k else k ret rx w

  -- One round of the loop takes a byte at least, so that a round for each byte is enough.
  unfoldable pub recv_loop : ℕ → List ℕ → ℕ → Rxbuf → W → Recv W
  recv_loop fuel [] ret rx w = returned (pos ret) rx w
  recv_loop zero (b ∷ net) ret rx w = spins
  recv_loop (suc fuel) (b ∷ net) ret rx w = or_fail (resize can_alloc rx (target rx)) w (λ r.
      let n = min (lacking rx) (length (b ∷ net)) in
      ignore (add can_alloc r (take n (b ∷ net)))
        (λ r'. check_packet (ret + n) r' w (recv_loop fuel (drop n (b ∷ net)))))

  unfoldable pub recv_binary : List ℕ → Rxbuf → W → Recv W
  unfolding recv_loop check_packet deliver pass_up after_input next_packet binary_pkt_len
      length_field
  recv_binary [] rx w = elim cb.on_input [
    | none ↦ returned (pos 0) rx w
    | some f ↦ let (n, w') = f msg_eof [] w in returned n rx w'
  ]
  recv_binary (b ∷ net) rx w = recv_loop (length (b ∷ net)) (b ∷ net) 0 rx w

-- iov_size
abbrev pub iov_size : List (List ℕ) → ℕ
iov_size [] = 0
iov_size (p ∷ l) = length p + iov_size l

-- The three bytes in front of the data.
abbrev pub header : ℕ → ℕ → List ℕ
header msg size = msg ∷ size / 256 % 256 ∷ size % 256 ∷ []

module _ {W : Type 0} (cb : Callbacks W) where
  abbrev pub pack : ℕ → Pieces → W → Output W
  pack msg (pieces l) w =
      if ltb 0xffff (iov_size l)
      then Base.returned (negsuc 0) w
      else (let (n, w') = send cb (header msg (iov_size l) ∷ l) w in Base.returned n w')
  pack msg refused w = Base.returned (negsuc 0) w
  pack msg Format.undefined w = Base.undefined

  -- Ten iovs, the first for the header.
  unfoldable pub output_binary : ℕ → List ℕ → List Arg → W → Output W
  output_binary msg fmt args w = pack msg (to_binary_iov 9 16 fmt args) w
