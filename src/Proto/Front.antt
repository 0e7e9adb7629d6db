-- ===== src/Proto/Front.antt =====
-- lib/proto.c: the translator's front end, which finds out the mode and calls the mode's functions.
pub mod Roundtrip
mod Tests
use infod.Prelude.{
  ℕ, ◌+◌, ◌≤◌, ◌<◌, ◌≡◌, refl, ◌⊎◌, inl, inr, ℤ, pos, negsuc, Bool, true, false, not, ◌&&◌, ◌||◌,
  Option, none, some, List, [], ◌∷◌, ◌++◌, leb, ◌==◌, if◌then◌else◌, arith,
}
use infod.Match.{deref}
use infod.Rxbuf.{Rxbuf, empty}
use infod.Proto.Base.{Callbacks, Output, msg_eof, mode_unknown, mode_binary, mode_text, mode_framed}
use infod.Proto.Base
use infod.Proto.Format.{Arg}
use infod.Proto.Framed.{recv_framed, output_framed}
use infod.Proto.Binary.{Recv, recv_binary, output_binary}
use infod.Proto.Binary
use infod.Proto.Text.Decoder.{Textproto, Decoder, t_bol, Got, got, aborted, spins}
use infod.Proto.Text.Input.{recv_text}
use infod.Proto.Text.Output.{Step, value, undefined}
use infod.Proto.Text.Message.{output_text}

-- struct proto, with the world of the callbacks.
pub record Proto (W : Type 0) : Type 0 where
  pub mode : ℕ
  pub dec : Decoder W

-- A call returns a number, aborts, or its loop is out of rounds.
pub data Result (W : Type 0) : Type 0 where
  result : ℤ → Proto W → Result W
  dies : Result W
  runs_on : Result W

unfoldable pub proto_new : {W : Type 0} → W → Proto W
proto_new w = record {
  mode = mode_unknown;
  dec = record {
    t = record { state = t_bol; fmt = []; intval = 0; cmd = []; counter = 0; optional = false };
    rx = empty;
    world = w;
  };
}

-- Whether the first byte from the network is one of text mode. A char is signed: a byte from 128 on
-- is below 0x40.
unfoldable pub is_text_start : ℕ → Bool
is_text_start ch = ch == b'\n' || (ch == b'\r' || (ch == b' ' || (leb 0x40 ch && leb ch b'~')))

unfoldable pub detect : ℕ → {W : Type 0} → Proto W → Proto W
unfolding is_text_start
detect ch p =
    if p.mode == mode_unknown
    then record p { mode = if is_text_start ch then mode_text else mode_binary }
    else p

module _ {W : Type 0} (can_alloc : ℕ → Bool) (cb : Callbacks W) where
  abbrev pub of_binary : Proto W → Recv W → Result W
  of_binary p (Binary.returned n rx w) =
      result n (record p { dec = record p.dec { rx = rx; world = w } })
  of_binary p Binary.aborted = dies
  of_binary p Binary.spins = runs_on

  abbrev pub of_text : Proto W → Got W → Result W
  of_text p (got n d) = result n (record p { dec = d })
  of_text p aborted = dies
  of_text p spins = runs_on

  abbrev pub with_world : Proto W → ℤ × W → Result W
  with_world p (n, w) = result n (record p { dec = record p.dec { world = w } })

  unfoldable pub by_mode : List ℕ → Proto W → Result W
  by_mode net p =
      if p.mode == mode_binary
      then of_binary p (recv_binary can_alloc cb net p.dec.rx p.dec.world)
      else if p.mode == mode_text
      then of_text p (recv_text can_alloc cb net p.dec)
      else if p.mode == mode_framed
      then with_world p (recv_framed cb net p.dec.world)
      else result (negsuc 0) p

  abbrev pub at_close : Proto W → Option (ℕ → List ℕ → W → ℤ × W) → Result W
  at_close p none = result (pos 0) p
  at_close p (some f) =
      result (pos 0) (record p { dec = record p.dec { world = (f msg_eof [] p.dec.world).1 } })

  -- `pad` is the byte behind the input, which has to be a NUL.
  unfoldable pub proto_recv : List ℕ → ℕ → Proto W → Result W
  unfolding by_mode detect
  proto_recv [] pad p = at_close p cb.on_input
  proto_recv (ch ∷ net) pad p =
      if not (pad == 0) then result (negsuc 0) p else by_mode (ch ∷ net) (detect ch p)

  abbrev pub of_output : Proto W → Output W → Result W
  of_output p (Base.returned n w) = result n (record p { dec = record p.dec { world = w } })
  of_output p Base.undefined = dies

  abbrev pub of_step : Proto W → Step W → Result W
  of_step p (value n o) = result n (record p { dec = record p.dec { world = o.world } })
  of_step p undefined = dies

  unfoldable pub output_by_mode : ℕ → List ℕ → List Arg → Proto W → Result W
  output_by_mode msg fmt args p =
      if p.mode == mode_binary
      then of_output p (output_binary cb msg fmt args p.dec.world)
      else if p.mode == mode_text
      then of_step p (output_text cb msg fmt args p.dec.world)
      else if p.mode == mode_framed
      then of_output p (output_framed cb msg fmt args p.dec.world)
      else result (negsuc 0) p

  -- Binary is the mode of a translator that speaks first.
  unfoldable pub proto_outputv : ℕ → List ℕ → List Arg → Proto W → Result W
  unfolding output_by_mode
  proto_outputv msg fmt args p =
      output_by_mode msg fmt args
        (if p.mode == mode_unknown then record p { mode = mode_binary } else p)
