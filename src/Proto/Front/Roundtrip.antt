-- ===== src/Proto/Front/Roundtrip.antt =====
-- lib/proto.c in binary mode: a packet from a new translator to a new translator.
use infod.Prelude.{ℕ, zero, suc, ◌≤◌, ◌<◌, ◌≡◌, ◌⊎◌, ℤ, pos, negsuc, Bool, List, [], ◌∷◌}
use infod.Rxbuf.{Rxbuf}
use infod.Proto.Base.{Callbacks, mode_binary}
use infod.Proto.Binary.{Recv}
use infod.Proto.Binary.Feed.{after_callback}
use infod.Proto.Binary.Feed.Buffer.{Matches}
use infod.Proto.Front.{Proto, Result, result, dies, runs_on, proto_new, proto_recv, of_binary}

module _ {W : Type 0} (can_alloc : ℕ → Bool) (cb : Callbacks W) where
  abbrev pub then_proto : Result W → (Proto W → Result W) → Result W
  then_proto (result (pos zero) p) k = result (pos zero) p
  then_proto (result (pos (suc n)) p) k = k p
  then_proto (result (negsuc n) p) k = result (negsuc n) p
  then_proto dies k = dies
  then_proto runs_on k = runs_on

  -- One call of proto_recv() for each piece, as long as it returns a positive number; the byte behind
  -- each is a NUL.
  abbrev pub proto_pieces : List (ℕ × List ℕ) → Proto W → Result W
  proto_pieces [] p = result (pos 0) p
  proto_pieces ((b, net) ∷ l) p =
      then_proto (proto_recv can_alloc cb (b ∷ net) 0 p) (proto_pieces l)

  -- A translator in binary mode.
  abbrev binary : Rxbuf → W → Proto W → Proto W
  binary rx w p = record p { mode = mode_binary; dec = record p.dec { rx = rx; world = w } }

-- The messages that binary mode starts with: no text line starts with their numbers.
abbrev pub IsBinaryStart : ℕ → Type 0
IsBinaryStart msg = (msg < 10) ⊎ ((127 ≤ msg) × (msg < 256))

-- What is delivered by all calls of proto_recv() on the pieces, and how they end.
pub record IsDelivered {W : Type 0} (can_alloc : ℕ → Bool) (cb : Callbacks W)
    (l : List (ℕ × List ℕ)) (w : W) (n : ℤ × W) : Type 0 where
  pub outcome : Recv W
  pub pieces :
      proto_pieces can_alloc cb l (proto_new w)
      ≡ of_binary can_alloc cb (record (proto_new w) { mode = mode_binary }) outcome
  pub delivered : Matches 0 outcome (after_callback cb n)
