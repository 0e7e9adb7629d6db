-- ===== src/Proto/Binary/Tests.antt =====
-- The theorems on the binary mode of lib/protobin.c at concrete inputs.
use infod.Prelude.{
  ℕ, ◌/◌, ◌%◌, ◌≡◌, refl, ◌++◌, ℤ, pos, negsuc, Bool, true, none, some, List, [], ◌∷◌, arith,
  length, zero, suc,
}
use mathlib.Core.List.{append-nil}
use infod.Rxbuf.{empty, clear, add, zeropad, resize, resize_to, roundup}
use infod.Proto.Base.{Callbacks, wire}
use infod.Proto.Base
use infod.Proto.Binary.{returned, recv_binary, output_binary}
use infod.Proto.Binary.Feed.{feed}
use infod.Proto.Binary.Feed.Buffer.{IsReady, Matches, EndsWith}
use infod.Proto.Binary.Feed.Stream.{recv_pieces, stream, recv_pieces-Matches}
use infod.Proto.Binary.Feed.Packet.{packet, bytes_format, bytes_args, binary_gap}

abbrev always : ℕ → Bool
always n = true

-- The application keeps a list of the messages it was given.
abbrev Log : Type 0
Log = List (ℕ × List ℕ)

abbrev note : ℕ → List ℕ → Log → ℤ × Log
note msg body log = (pos 1, (msg, body) ∷ log)

abbrev listener : Callbacks Log
listener = record { on_input = some note; on_sendv = none }

empty-IsReady : IsReady empty
empty-IsReady = (record { written = omega arith; fits = omega arith }, omega arith)

-- PING "ab", cut inside the header and inside the data.
abbrev cut : List (ℕ × List ℕ)
cut = (7, 0 ∷ []) ∷ (2, b'a' ∷ []) ∷ (b'b', []) ∷ []

abbrev ab : List ℕ
ab = b'a' ∷ b'b' ∷ []

ping_runs :
    recv_binary always listener (7 ∷ 0 ∷ 2 ∷ b'a' ∷ b'b' ∷ []) empty []
    ≡ returned
        (pos 6)
        (record { buf = 7 ∷ 0 ∷ 2 ∷ b'a' ∷ b'b' ∷ 0 ∷ []; max = 1024; len = 0 })
        ((7, ab) ∷ [])
unfolding recv_binary clear add zeropad resize resize_to roundup
ping_runs = refl

recv_pieces-Matches_example :
    Matches 0 (recv_pieces always listener cut empty []) (feed listener (stream cut) [] [])
recv_pieces-Matches_example =
    recv_pieces-Matches always (λ n. refl) listener cut empty [] empty-IsReady

zeros : ℕ → List ℕ
zeros zero = []
zeros (suc n) = 0 ∷ zeros n

length-zeros : (n : ℕ) → length (zeros n) ≡ n
unfolding zeros
length-zeros zero = refl
length-zeros (suc n) = omega (arith, length-zeros n)

abbrev long : List ℕ
long = zeros 65532

-- The whole packet in one piece.
abbrev whole : List (ℕ × List ℕ)
whole = (4, length long / 256 % 256 ∷ length long % 256 ∷ long) ∷ []

binary_gap_example :
    (output_binary wire 4 bytes_format (bytes_args long) []
      ≡ Base.returned (pos 0) ([] ++ packet 4 long))
    × EndsWith (negsuc 0) [] (recv_pieces always listener whole empty [])
binary_gap_example =
    binary_gap always (λ n. refl) listener note 4 long [] whole empty [] refl
      (omega (arith, length-zeros 65532)) (omega (arith, length-zeros 65532))
      (append-nil (packet 4 long)) empty-IsReady refl
