-- ===== src/Daemon/Peer.antt =====
-- What daemon/infod.c asks of the translators in lib/proto.c, and proto_output_error() of the latter.
use infod.Prelude.{
  ℕ, ◌-◌, ℤ, pos, negsuc, is_negative, Bool, not, ◌&&◌, Option, List, [], ◌∷◌, ◌==◌, if◌then◌else◌,
  take,
}
use infod.Proto.Base.{msg_error, error_internal}
use infod.Proto.Format.{Arg, int, ptr}

-- The translator of each client, by its file descriptor. `proto_new` is none where there is no
-- memory, `is_text` says whether the mode is PROTO_MODE_TEXT, and `strerror` is the text for errno.
pub record Peers (W : Type 0) : Type 0 where
  pub proto_output : ℕ → ℕ → List ℕ → List Arg → W → ℤ × W
  pub is_text : ℕ → W → Bool
  pub proto_new : ℕ → W → Option W
  pub proto_set_framed : ℕ → W → W
  pub proto_free : ℕ → W → W
  pub shutdown_read : ℕ → W → W
  pub strerror : W → List ℕ

-- "%*s"
abbrev pub sized_text : List ℕ
sized_text = b'%' ∷ b'*' ∷ b's' ∷ []

-- "%s"
abbrev pub one_text : List ℕ
one_text = b'%' ∷ b's' ∷ []

-- "%c%s"
abbrev pub byte_text : List ℕ
byte_text = b'%' ∷ b'c' ∷ b'%' ∷ b's' ∷ []

-- The size of the message buffer of proto_output_error().
abbrev pub error_size : ℕ
error_size = 16384

-- In text mode the channel stays open, unless the error is an internal one.
unfoldable pub after_error : {W : Type 0} → Peers W → ℕ → ℕ → ℤ × W → ℤ × W
after_error peers fd code (n, w) =
    if is_negative n
    then (negsuc 0, w)
    else if peers.is_text fd w && not (code == error_internal)
    then (pos 1, w)
    else (negsuc 0, w)

unfoldable pub proto_output_error : {W : Type 0} → Peers W → ℕ → ℕ → List ℕ → W → ℤ × W
unfolding after_error
proto_output_error peers fd code text w =
    after_error peers fd code (
      peers.proto_output fd msg_error byte_text (int code ∷ ptr (take (error_size - 1) text) ∷ [])
        w)
