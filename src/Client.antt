-- ===== src/Client.antt =====
-- lib/info.c: what a client waits for, and what it does with the messages that come.
pub mod Bound
pub mod Reads
mod Tests
use infod.Prelude.{
  ℕ, zero, suc, ◌+◌, ◌-◌, ℤ, pos, negsuc, is_positive, Bool, true, false, not, ◌&&◌, Option, none,
  some, List, [], ◌∷◌, ◌++◌, ltb, ◌==◌, if◌then◌else◌, length, take, drop,
}
use infod.Match.{cstr}
use infod.Store.Put.{same_text}
use infod.Proto.Base.{msg_info, msg_error, msg_eof}

-- The pseudo-message for one read.
abbrev pub once : ℕ
once = msg_eof - 1

-- struct info_bind; a value is its offset in the caller's buffer, none is for NULL.
pub record Bind : Type 0 where
  pub key : List ℕ
  pub value : Option ℕ
  pub valuesz : ℕ

-- `waitret` and `last_error`, and the world of the callback, which leaves these alone. The buffer holds
-- its first `buflen` bytes.
pub record Waitret (W : Type 0) : Type 0 where
  pub until_msg : ℕ
  pub in_cb : Bool
  pub done : ℕ
  pub binds : Option (List Bind)
  pub exists_key : Option (List ℕ)
  pub exists_ret : Bool
  pub buffer : List ℕ
  pub buffersz : ℕ
  pub info_cb : Option (List ℕ → Option (List ℕ) → W → ℤ × W)
  pub last_error : List ℕ
  pub world : W

-- false is for -1, with EBUSY.
unfoldable pub waitret_init : {W : Type 0} → Waitret W → Bool × Waitret W
waitret_init w = if w.in_cb then (false, w) else (
  true,
  record w {
    until_msg = 0;
    in_cb = false;
    done = 0;
    binds = none;
    exists_key = none;
    exists_ret = false;
    buffer = [];
    buffersz = 0;
    info_cb = none;
  },
)

-- The value behind the key in the data of a message, which has a NUL behind it; none if it is deleted.
unfoldable pub value_of : List ℕ → Option (List ℕ)
value_of content =
    if length (cstr content) == length content
    then none
    else some (drop (length (cstr content) + 1) content)

abbrev pub bind_value : Bind → List ℕ → ℕ → Option (List ℕ) → Option (Bind × List ℕ)
bind_value b buffer buffersz none = some (record b { value = none; valuesz = 0 }, buffer)
bind_value b buffer buffersz (some value) =
    if ltb buffersz (length value + length buffer)
    then none
    else some (record b { value = some (length buffer); valuesz = length value }, buffer ++ value)

-- The binding, and the buffer; none is for ENOMEM.
unfoldable pub waitret_bind : Bind → List ℕ → List ℕ → ℕ → Option (Bind × List ℕ)
waitret_bind b content buffer buffersz = bind_value b buffer buffersz (value_of content)

abbrev pub put_bind : List Bind → Option (List Bind × List ℕ) → Bind → Option (List Bind × List ℕ)
put_bind bs none b = none
put_bind bs (some (rest, buffer)) b = some (b ∷ rest, buffer)

abbrev pub bound : List Bind → Option (Bind × List ℕ) → Option (List Bind × List ℕ)
bound bs none = none
bound bs (some (b, buffer)) = some (b ∷ bs, buffer)

-- The loop over the bindings: the first with the key of the message is filled.
unfoldable pub bind_first : List Bind → List ℕ → List ℕ → ℕ → Option (List Bind × List ℕ)
unfolding waitret_bind
bind_first [] content buffer buffersz = some ([], buffer)
bind_first (b ∷ bs) content buffer buffersz =
    let rest = bind_first bs content buffer buffersz in
    if same_text (cstr content) b.key
    then bound bs (waitret_bind b content buffer buffersz)
    else put_bind bs rest b

unfoldable pub note_until : {W : Type 0} → ℕ → Waitret W → Waitret W
note_until msg w = record w { done = if w.until_msg == msg then w.done + 1 else w.done }

unfoldable pub note_exists : {W : Type 0} → ℕ → List ℕ → Waitret W → Waitret W
note_exists msg content w = elim w.exists_key [
  | none ↦ w
  | some key ↦
      if (msg == msg_info) && same_text key (cstr content)
      then record w { exists_ret = not (length key == length content); done = w.done + 1 }
      else w
]

-- none is for -1.
unfoldable pub note_binds : {W : Type 0} → ℕ → List ℕ → Waitret W → Option (Waitret W)
unfolding bind_first
note_binds msg content w = elim w.binds [
  | none ↦ some w
  | some bs ↦
      if msg == msg_info then filled w (bind_first bs content w.buffer w.buffersz) else some w
]
  where
    filled : {W : Type 0} → Waitret W → Option (List Bind × List ℕ) → Option (Waitret W)
    filled w none = none
    filled w (some (bs, buffer)) = some (record w { binds = some bs; buffer = buffer })

abbrev is_failed : ℤ → Bool
is_failed (negsuc zero) = true
is_failed _ = false

abbrev is_enough : ℤ → Bool
is_enough (pos zero) = true
is_enough _ = false

-- The callback's part, and whether on_input() is to return -1.
unfoldable pub tell : {W : Type 0} → ℕ → List ℕ → Waitret W → Bool × Waitret W
unfolding value_of
tell msg content w = elim w.info_cb [
  | none ↦ (false, w)
  | some f ↦
      let (n, world) = f (cstr content) (value_of content) w.world in
      if msg == msg_info
      then (
        is_failed n,
        record w {
          in_cb = false;
          world = world;
          done = if is_enough n && (w.until_msg == msg_eof) then w.done + 1 else w.done;
        },
      )
      else (false, w)
]

-- snprintf() into 1024 bytes.
abbrev pub printed : List ℕ → List ℕ
printed text = take 1023 text

abbrev pub server_text : List ℕ
server_text = b'(' ∷ b's' ∷ b'e' ∷ b'r' ∷ b'v' ∷ b'e' ∷ b'r' ∷ b')' ∷ b' ' ∷ []

abbrev pub closed_text : List ℕ
closed_text =
    b'C' ∷ b'o' ∷ b'n' ∷ b'n' ∷ b'e' ∷ b'c' ∷ b't' ∷ b'i' ∷ b'o' ∷ b'n' ∷ b' ' ∷ b'c' ∷ b'l' ∷ b'o'
    ∷ b's' ∷ b'e' ∷ b'd' ∷ []

abbrev pub closed_by_server_text : List ℕ
closed_by_server_text =
    b'c' ∷ b'o' ∷ b'n' ∷ b'n' ∷ b'e' ∷ b'c' ∷ b't' ∷ b'i' ∷ b'o' ∷ b'n' ∷ b' ' ∷ b'c' ∷ b'l' ∷ b'o'
    ∷ b's' ∷ b'e' ∷ b'd' ∷ b' ' ∷ b'b' ∷ b'y' ∷ b' ' ∷ b's' ∷ b'e' ∷ b'r' ∷ b'v' ∷ b'e' ∷ b'r' ∷ []

unfoldable pub on_input : {W : Type 0} → ℕ → List ℕ → Waitret W → ℤ × Waitret W
unfolding note_until note_exists note_binds tell
on_input msg content w =
    let w' = note_until msg w in
    if msg == msg_eof
    then (pos 0, record w' { last_error = closed_text })
    else answered msg content (note_exists msg content w')
        (note_binds msg content (note_exists msg content w'))
  where
    answered : {W : Type 0} → ℕ → List ℕ → Waitret W → Option (Waitret W) → ℤ × Waitret W
    answered msg content before none = (negsuc 0, before)
    answered msg content before (some w) =
        let (failed, told) = tell msg content w in
        if failed
        then (negsuc 0, told)
        else if msg == msg_error
        then (pos 0, record told { last_error = printed (server_text ++ cstr content) })
        else (pos 1, told)

-- How wait_until() ends: with a number, and false for EPIPE; or it is still in read().
pub data Waits (W : Type 0) : Type 0 where
  returns : ℤ → Bool → Waitret W → Waits W
  reading : Waitret W → Waits W

module _ {W : Type 0} (proto_recv : List ℕ → Waitret W → ℤ × Waitret W) where
  abbrev pub after_recv : ℕ → ℤ × Waitret W → Waits W → Waits W
  after_recv msg (pos zero, w) rest = returns (negsuc 0) false w
  after_recv msg (negsuc n, w) rest = returns (negsuc n) true w
  after_recv msg (pos (suc n), w) rest =
      if not (msg == once) && (w.done == 0) then rest else returns (pos w.done) true w

  -- The results of read() in turn; none is for -1.
  unfoldable pub wait_loop : ℕ → List (Option (List ℕ)) → Waitret W → Waits W
  wait_loop msg [] w = reading w
  wait_loop msg (none ∷ reads) w = returns (negsuc 0) true w
  wait_loop msg (some [] ∷ reads) w =
      returns (negsuc 0) false (record w { last_error = closed_by_server_text })
  wait_loop msg (some (b ∷ net) ∷ reads) w =
      let r = proto_recv (b ∷ net) w in let rest = wait_loop msg reads r.1 in after_recv msg r rest

  unfoldable pub wait_until : ℕ → List (Option (List ℕ)) → Waitret W → Waits W
  unfolding wait_loop
  wait_until msg reads w = wait_loop msg reads (record w { until_msg = msg; done = 0 })
