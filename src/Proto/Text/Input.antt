-- ===== src/Proto/Text/Input.antt =====
-- The text decoder of lib/prototext.c: recv_text_1ch(), a state machine on bytes, and recv_text().
pub mod Quoted
pub mod Weight
pub mod Handlers
pub mod Rounds
use infod.Prelude.{
  ℕ, zero, suc, ◌+◌, ◌-◌, ◌*◌, ◌/◌, ◌%◌, ◌^◌, ℤ, pos, negsuc, is_positive, is_failure, Bool, true,
  false, not, ◌&&◌, ◌||◌, Option, none, some, List, [], ◌∷◌, ◌++◌, ltb, leb, ◌==◌, if◌then◌else◌,
  length, take, drop,
}
use infod.Match.{deref, advance, cstr}
use infod.Rxbuf.{Rxbuf, Call, done, failed, clear, addc, zeropad, trimspace}
use infod.Rxbuf
use infod.Proto.Base.{Callbacks, msg_error, msg_eof, error_bad_msg, error_bad_arg}
use infod.Proto.Format.{Arg, int, ptr}
use infod.Proto.Text.{Command, cmdtab, codes, pseudo_help}
use infod.Proto.Text.Output.{Step, value, undefined}
use infod.Proto.Text.Message.{output_text}
use infod.Proto.Text.Decoder.{
  help_text, Tstate, t_error, t_bol, t_cmd, t_argsp, t_int, t_strbeg, t_str, t_qstr, t_qoct,
  Textproto, Decoder, Turn, gives, again, aborts, Got, got, aborted, spins, enter, next, or_fail,
  is_eol, same_word, find_word,
}

module _ {W : Type 0} (can_alloc : ℕ → Bool) (cb : Callbacks W) where
  -- proto_output_error() in text mode, its result not looked at; the text is cut to 16383 bytes.
  abbrev pub reported : Step W → Decoder W → (Decoder W → Turn W) → Turn W
  reported (value n o) d k = k (record d { world = o.world })
  reported undefined d k = aborts

  unfoldable pub report : ℕ → List ℕ → Decoder W → (Decoder W → Turn W) → Turn W
  report code text d k =
      reported
        (output_text cb msg_error (codes "%c%s") (int code ∷ ptr (take 16383 text) ∷ []) d.world) d
        k

  abbrev pub help : W → ℤ × W
  help w = elim cb.on_sendv [ none ↦ (pos 1, w) | some f ↦ f (help_text ∷ []) w ]

  unfoldable pub text_input : (ℕ → List ℕ → W → ℤ × W) → ℕ → List ℕ → W → ℤ × W
  text_input on_input msg body w = if msg == pseudo_help then help w else on_input msg body w

  abbrev pub after_input : ℤ × W → Decoder W → Turn W
  after_input (n, w) d =
      let d' = record d { world = w } in if is_positive n then next (enter t_bol d') else gives n d'

  -- Pass up the full command, if the application asks for input.
  abbrev pub pass_line : Option (ℕ → List ℕ → W → ℤ × W) → Decoder W → Turn W
  pass_line none d = next (enter t_bol d)
  pass_line (some f) d = or_fail (zeropad can_alloc d.rx) d (λ d'.
      after_input
        (text_input f (deref d'.rx.buf % 256) (take (d'.rx.len - 1) (drop 1 d'.rx.buf)) d'.world)
        d')

  unfoldable pub end_of_line : Decoder W → Turn W
  unfolding text_input
  end_of_line d = pass_line cb.on_input d

  -- Where the NUL does not fit, the rest of the line is skipped.
  abbrev pub add_nul : Call → Decoder W → Turn W
  add_nul (done r) d = again (record d { rx = r })
  add_nul (failed r) d = again (enter t_error (record d { rx = r }))
  add_nul Rxbuf.aborted d = aborts

  -- The next element of the format, at a byte that is no space.
  unfoldable pub start_arg : Decoder W → Turn W
  start_arg d =
      let f = deref d.t.fmt in
      let d' = record d { t = record d.t { fmt = advance d.t.fmt } } in
      if f == b'i'
      then again (record d' { t = record d'.t { state = t_int; intval = 0 } })
      else if f == b't'
      then again (enter t_strbeg d')
      else if f == b'0'
      then add_nul (addc can_alloc d.rx 0) d'
      else aborts

  abbrev pub skip_bar : Decoder W → Decoder W
  skip_bar d =
      if deref d.t.fmt == b'|'
      then record d { t = record d.t { fmt = advance d.t.fmt; optional = true } }
      else d

  unfoldable pub on_argsp : ℕ → Decoder W → Turn W
  unfolding report end_of_line start_arg
  on_argsp ch d =
      let d' = skip_bar d in
      if ch == b' '
      then next d
      else if is_eol ch
      then (if not d'.t.optional && not (deref d'.t.fmt == 0)
          then report error_bad_arg (codes "missing arg for '" ++ cstr d'.t.cmd ++ codes "'") d'
              (λ e. next (enter t_bol e))
          else end_of_line d')
      else if deref d'.t.fmt == 0
      then report error_bad_arg (codes "unexpected arg for '" ++ cstr d'.t.cmd ++ codes "'") d'
          (λ e. again (enter t_error e))
      else start_arg d'

  -- The end of the command word: the number goes to the front of the buffer.
  unfoldable pub look_up : ℕ → Decoder W → Option Command → Turn W
  unfolding on_argsp
  look_up ch d none =
      report error_bad_msg (codes "unknown command '" ++ cstr d.t.cmd ++ codes "', try 'help'") d
        (λ e. again (enter t_error e))
  look_up ch d (some c) = or_fail (clear can_alloc d.rx 1) d (λ d₁.
      or_fail (addc can_alloc d₁.rx c.id) d₁ (λ d₂.
        on_argsp ch
          (record d₂ { t = record d₂.t { fmt = c.fmt; optional = false; state = t_argsp } })))

  unfoldable pub on_cmd : ℕ → Decoder W → Turn W
  unfolding look_up find_word
  on_cmd ch d =
      let d' = record d { t = record d.t { cmd = d.t.cmd ++ (ch ∷ []) } } in
      if ch == b' ' || is_eol ch
      then look_up ch d (find_word (cstr d.t.cmd) cmdtab)
      else if leb 16 (length d'.t.cmd)
      then report error_bad_msg (codes "long command") d' (λ e. again (enter t_error e))
      else next d'

  unfoldable pub on_bol : ℕ → Decoder W → Turn W
  unfolding on_cmd
  on_bol ch d =
      if ch == b' ' || is_eol ch
      then next d
      else on_cmd ch (record d { t = record d.t { cmd = []; state = t_cmd } })

  unfoldable pub on_int : ℕ → Decoder W → Turn W
  on_int ch d =
      let n = (d.t.intval * 10 + ch - b'0') % 2 ^ 16 in
      let d' = record d { t = record d.t { intval = n } } in
      if leb b'0' ch && leb ch b'9'
      then (if ltb 255 n
          then report error_bad_msg (codes "integer overflow") d' (λ e. again (enter t_error e))
          else next d')
      else or_fail (addc can_alloc d.rx (d.t.intval % 256)) d (λ e. again (enter t_argsp e))

  unfoldable pub on_str : ℕ → Decoder W → Turn W
  on_str ch d =
      let last = deref d.t.fmt == 0 in
      let d' = if last then record d { rx = trimspace d.rx } else d in
      if is_eol ch || (not last && (ch == b' '))
      then again (enter t_argsp d')
      else or_fail (addc can_alloc d.rx ch) d next

  unfoldable pub on_strbeg : ℕ → Decoder W → Turn W
  unfolding on_str
  on_strbeg ch d = if ch == b'"' then next (enter t_qstr d) else on_str ch (enter t_str d)

  unfoldable pub on_qstr : ℕ → Decoder W → Turn W
  on_qstr ch d =
      if is_eol ch
      then report error_bad_msg (codes "unclosed \"") d (λ e. next (enter t_bol e))
      else if ch == b'\\'
      then next (record d { t = record d.t { counter = 3; intval = 0; state = t_qoct } })
      else if ch == b'"'
      then next (enter t_argsp d)
      else or_fail (addc can_alloc d.rx ch) d next

  unfoldable pub on_qoct : ℕ → Decoder W → Turn W
  on_qoct ch d =
      let n = (d.t.intval * 8 + (ch - b'0')) % 2 ^ 16 in
      let d' = record d { t = record d.t { intval = n; counter = d.t.counter - 1 } } in
      if ltb ch b'0' || ltb b'7' ch
      then report error_bad_msg (codes "expected octal after backslash") d
          (λ e. again (enter t_error e))
      else if d.t.counter - 1 == 0
      then or_fail (addc can_alloc d'.rx (n % 256)) d' (λ e. next (enter t_qstr e))
      else next d'

  -- The switch on the state.
  unfoldable pub turn : Tstate → ℕ → Decoder W → Turn W
  unfolding on_bol on_int on_str on_strbeg on_qstr on_qoct
  turn t_error ch d = if is_eol ch then on_bol ch (enter t_bol d) else next d
  turn t_bol ch d = on_bol ch d
  turn t_cmd ch d = on_cmd ch d
  turn t_argsp ch d = on_argsp ch d
  turn t_int ch d = on_int ch d
  turn t_strbeg ch d = on_strbeg ch d
  turn t_str ch d = on_str ch d
  turn t_qstr ch d = on_qstr ch d
  turn t_qoct ch d = on_qoct ch d

  abbrev pub after_turn : Turn W → (Decoder W → Got W) → Got W
  after_turn (gives n d) k = got n d
  after_turn (again d) k = k d
  after_turn aborts k = aborted

  -- `goto again`, at most `fuel` times.
  unfoldable pub turns : ℕ → ℕ → Decoder W → Got W
  unfolding turn
  turns zero ch d = spins
  turns (suc fuel) ch d = after_turn (turn d.t.state ch d) (turns fuel ch)

  -- A format has at most four elements, and each is entered twice at most.
  unfoldable pub recv_text_1ch : ℕ → Decoder W → Got W
  unfolding turns
  recv_text_1ch ch d = turns 12 ch d

  abbrev pub plus : ℤ → ℤ → ℤ
  plus (pos a) (pos b) = pos (a + b)
  plus a b = a

  abbrev pub and_more : ℤ → Got W → (ℤ → Decoder W → Got W) → Got W
  and_more ret (got n d) k = if is_positive n then k (plus ret n) d else got n d
  and_more ret aborted k = aborted
  and_more ret spins k = spins

  unfoldable pub recv_bytes : List ℕ → ℤ → Decoder W → Got W
  recv_bytes [] ret d = got ret d
  recv_bytes (ch ∷ net) ret d = and_more ret (recv_text_1ch ch d) (recv_bytes net)

  abbrev pub at_eof : Option (ℕ → List ℕ → W → ℤ × W) → Decoder W → Got W
  at_eof none d = got (pos 0) d
  at_eof (some f) d = let (n, w) = f msg_eof [] d.world in got n (record d { world = w })

  abbrev pub after_eol : Got W → Got W
  after_eol (got n d) = if is_failure n then got (negsuc 0) d else at_eof cb.on_input d
  after_eol aborted = aborted
  after_eol spins = spins

  unfoldable pub recv_text : List ℕ → Decoder W → Got W
  unfolding recv_bytes recv_text_1ch
  recv_text [] d = after_eol (recv_text_1ch b'\n' d)
  recv_text (ch ∷ net) d = recv_bytes (ch ∷ net) (pos 0) d
