-- ===== src/Proto/Base.antt =====
-- lib/proto.h: the message numbers, the modes, and the callbacks of the application.
-- `W` is the world outside the translator: the application's data and the network.
use infod.Prelude.{ℕ, ℤ, Option, none, some, List, [], ◌∷◌, ◌++◌}

abbrev pub cmd_hello : ℕ
cmd_hello = 0x00

abbrev pub cmd_sub : ℕ
cmd_sub = 0x01

abbrev pub cmd_unsub : ℕ
cmd_unsub = 0x02

abbrev pub cmd_read : ℕ
cmd_read = 0x03

abbrev pub cmd_write : ℕ
cmd_write = 0x04

abbrev pub cmd_begin : ℕ
cmd_begin = 0x05

abbrev pub cmd_commit : ℕ
cmd_commit = 0x06

abbrev pub cmd_ping : ℕ
cmd_ping = 0x07

abbrev pub msg_version : ℕ
msg_version = 0x80

abbrev pub msg_info : ℕ
msg_info = 0x81

abbrev pub msg_pong : ℕ
msg_pong = 0x82

abbrev pub msg_error : ℕ
msg_error = 0x83

abbrev pub msg_eof : ℕ
msg_eof = 0xff

abbrev pub mode_unknown : ℕ
mode_unknown = 0

abbrev pub mode_binary : ℕ
mode_binary = 1

abbrev pub mode_text : ℕ
mode_text = 2

abbrev pub mode_framed : ℕ
mode_framed = 3

abbrev pub error_bad_msg : ℕ
error_bad_msg = 100

abbrev pub error_bad_arg : ℕ
error_bad_arg = 101

abbrev pub error_too_big : ℕ
error_too_big = 102

abbrev pub error_bad_seq : ℕ
error_bad_seq = 103

abbrev pub error_internal : ℕ
error_internal = 255

-- The callbacks; `none` is a null pointer. on_input is given the message and its data (a NUL
-- follows the data in memory), on_sendv the pieces to send.
pub record Callbacks (W : Type 0) : Type 0 where
  pub on_input : Option (ℕ → List ℕ → W → ℤ × W)
  pub on_sendv : Option (List (List ℕ) → W → ℤ × W)

-- The value of a call of on_sendv, or 0 without one.
abbrev pub send : {W : Type 0} → Callbacks W → List (List ℕ) → W → ℤ × W
send {W} cb iov w = elim cb.on_sendv [ none ↦ (ℤ.pos 0, w) | some f ↦ f iov w ]

-- What a call of the translator's output side does: it returns a number, or it runs into abort() or
-- an undefined read of its arguments.
pub data Output (W : Type 0) : Type 0 where
  returned : ℤ → W → Output W
  undefined : Output W

abbrev pub concat : List (List ℕ) → List ℕ
concat [] = []
concat (p ∷ l) = p ++ concat l

-- A network that takes all that is sent, in order.
abbrev pub wire : Callbacks (List ℕ)
wire = record { on_input = none; on_sendv = some (λ iov net. (ℤ.pos 0, net ++ concat iov)) }
