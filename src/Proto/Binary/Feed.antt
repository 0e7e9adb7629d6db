-- ===== src/Proto/Binary/Feed.antt =====
-- The binary decoder byte by byte: what recv_binary does with a stream, however it is cut.
mod Bytes
pub mod Buffer
mod Round
mod Loop
pub mod Stream
pub mod Packet
use infod.Prelude.{
  ℕ, zero, suc, ◌+◌, ◌%◌, ℤ, pos, negsuc, is_positive, Bool, true, false, ◌&&◌, Option, none, some,
  List, [], ◌∷◌, ◌++◌, ltb, leb, ◌==◌, if◌then◌else◌, length, take, drop,
}
use infod.Proto.Base.{Callbacks}
use infod.Proto.Binary.{byte_at, length_field}

-- The decoder goes on with the bytes of an incomplete packet, or ends with a value that is not
-- positive.
pub data Fed (W : Type 0) : Type 0 where
  more : List ℕ → W → Fed W
  ended : ℤ → W → Fed W

-- The size of a packet whose header is there.
abbrev pub packet_size : List ℕ → ℕ
packet_size pending = 3 + length_field pending

module _ {W : Type 0} (cb : Callbacks W) where
  pub after_callback : ℤ × W → Fed W
  after_callback (n, w) = if is_positive n then more [] w else ended n w

  -- The callback of a complete packet. The buffer has to hold a NUL behind it within 2^16 bytes.
  pub call_up : (ℕ → List ℕ → W → ℤ × W) → List ℕ → W → Fed W
  call_up f packet w =
      if leb 0x10000 (length packet + 1)
      then ended (negsuc 0) w
      else after_callback
          (f (byte_at packet 0 % 256) (take (length_field packet) (drop 3 packet)) w)

  abbrev pub hand_to : Option (ℕ → List ℕ → W → ℤ × W) → List ℕ → W → Fed W
  hand_to none packet w = more [] w
  hand_to (some f) packet w = call_up f packet w

  pub hand_over : List ℕ → W → Fed W
  hand_over packet w = hand_to cb.on_input packet w

  pub is_complete : List ℕ → Bool
  is_complete pending = leb 3 (length pending) && (length pending == packet_size pending)

  pub settle : List ℕ → W → Fed W
  settle pending w = if is_complete pending then hand_over pending w else more pending w

  -- A packet of 2^16 bytes or more, with its header, is refused when its data starts.
  pub is_too_long : List ℕ → Bool
  is_too_long pending = leb 3 (length pending) && leb 0x10000 (packet_size pending)

  pub arrive : List ℕ → ℕ → W → Fed W
  arrive pending b w =
      if is_too_long pending then ended (negsuc 0) w else settle (pending ++ (b ∷ [])) w

  abbrev pub and_then : Fed W → (List ℕ → W → Fed W) → Fed W
  and_then (more pending w) k = k pending w
  and_then (ended n w) k = ended n w

  unfoldable pub feed : List ℕ → List ℕ → W → Fed W
  unfolding length_field arrive settle is_too_long is_complete hand_over call_up after_callback
  feed [] pending w = more pending w
  feed (b ∷ net) pending w = and_then (arrive pending b w) (feed net)
