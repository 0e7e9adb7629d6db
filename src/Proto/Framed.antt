-- ===== src/Proto/Framed.antt =====
-- lib/protofram.c: the mode in which the transport keeps the messages apart.
use infod.Prelude.{ℕ, ℤ, pos, negsuc, none, some, List, [], ◌∷◌, length}
use infod.Proto.Base.{Callbacks, send, Output, returned, undefined, msg_eof}
use infod.Proto.Format.{Arg, Pieces, pieces, refused, to_binary_iov}
use infod.Proto.Format

module _ {W : Type 0} (cb : Callbacks W) where
  -- `net` is one whole message, as received.
  unfoldable pub recv_framed : List ℕ → W → ℤ × W
  recv_framed net w = elim cb.on_input [
    | none ↦ (pos (length net), w)
    | some f ↦ elim net [ [] ↦ f msg_eof [] w | m ∷ data' ↦ f m data' w ]
  ]

  abbrev frame : ℕ → Pieces → W → Output W
  frame msg (pieces l) w = let (n, w') = send cb ((msg ∷ []) ∷ l) w in returned n w'
  frame msg refused w = returned (negsuc 0) w
  frame msg Format.undefined w = undefined

  -- Eight iovs, the first for the message byte.
  unfoldable pub output_framed : ℕ → List ℕ → List Arg → W → Output W
  output_framed msg fmt args w = frame msg (to_binary_iov 7 8 fmt args) w
