-- ===== src/Proto/Text/Decoder.antt =====
-- The state of the text decoder of lib/prototext.c, its help text and its look-up of commands.
use infod.Prelude.{
  ℕ, ◌+◌, ℤ, pos, negsuc, Bool, true, false, ◌&&◌, ◌||◌, Option, none, some, List, [], ◌∷◌, ◌++◌,
  leb, ◌==◌, if◌then◌else◌,
}
use infod.Rxbuf.{Rxbuf, Call, done, failed, clear, addc, zeropad, trimspace}
use infod.Rxbuf
use infod.Proto.Text.{Command, codes}

abbrev pub help_text : List ℕ
help_text =
    codes "Commands:\r\n"
    ++ codes " hello <int> [<clientid>]   - negotiate protocol\r\n"
    ++ codes " sub <pattern>              - subscribe to pattern\r\n"
    ++ codes " unsub <pattern>            - remove previous subscription\r\n"
    ++ codes " read <key>                 - read from store, request INFO\r\n"
    ++ codes " write <key> [<value>]      - write to store\r\n"
    ++ codes " begin                      - begin command group\r\n"
    ++ codes " commit                     - execute command group\r\n"
    ++ codes " ping [<string>]            - request a PONG reply\r\n"
    ++ codes " help                       - this help text\r\n"
    ++ codes "\r\n"
    ++ codes "Most commands may be abbreviated to their first letter\r\n"
    ++ codes "\r\n"
    ++ codes "Reply messages:\r\n"
    ++ codes " VERSION <int> [<serverid>] - server's selected protocol\r\n"
    ++ codes " INFO <key> [<value>]       - store content; no <value> deleted\r\n"
    ++ codes " PONG [<string>]            - reply to PING\r\n"
    ++ codes " ERROR <int> <text>         - error message\r\n"
    ++ codes "\r\n"
    ++ codes "Quoting:\r\n"
    ++ codes " Quoted strings begin and end with \".\r\n"
    ++ codes " Quoted strings never contain an unescaped LF CR \" \\ or NUL.\r\n"
    ++ codes " Escapes are always octal, eg \\134 for \\ and \\042 for \".\r\n"
    ++ codes " If a client's string doesn't start with \" then it's assumed\r\n"
    ++ codes " literal and continues without escape processing until next SPC,\r\n"
    ++ codes " or EOL. If it's the last arg then it's to EOL ignoring trailing\r\n"
    ++ codes " spaces. The server will always quote its strings.\r\n"
    ++ codes "\r\n"
    ++ codes "Patterns:\r\n"
    ++ codes " x       Any char except ( | ) * \\ matches itself\r\n"
    ++ codes " *x      Matches shortest substring up to and including an x\r\n"
    ++ codes " *       Wildcard at end of pattern matches rest of string\r\n"
    ++ codes " (a|b|c) Matches first branch a b or c then resumes at )\r\n"
    ++ codes " \\x      Matches char x which may be a metachar.\r\n"
    ++ codes "End of help.\r\n"

-- The states T_ERROR to T_QOCT.
pub data Tstate : Type 0 where
  t_error t_bol t_cmd t_argsp t_int t_strbeg t_str t_qstr t_qoct : Tstate

-- struct textproto. `cmd` holds its first cmdlen bytes, and `fmt` is the place in the format.
pub record Textproto : Type 0 where
  pub state : Tstate
  pub fmt : List ℕ
  pub intval : ℕ
  pub cmd : List ℕ
  pub counter : ℕ
  pub optional : Bool

pub record Decoder (W : Type 0) : Type 0 where
  pub t : Textproto
  pub rx : Rxbuf
  pub world : W

-- What the switch does with a byte: it returns a number, it is entered again, or it aborts or writes
-- outside a buffer.
pub data Turn (W : Type 0) : Type 0 where
  gives : ℤ → Decoder W → Turn W
  again : Decoder W → Turn W
  aborts : Turn W

-- A call returns a number, aborts, or is out of rounds.
pub data Got (W : Type 0) : Type 0 where
  got : ℤ → Decoder W → Got W
  aborted : Got W
  spins : Got W

abbrev pub enter : {W : Type 0} → Tstate → Decoder W → Decoder W
enter s d = record d { t = record d.t { state = s } }

-- `break`
abbrev pub next : {W : Type 0} → Decoder W → Turn W
next d = gives (pos 1) d

-- `if (call == -1) return -1;` for a call on the receive buffer
abbrev pub or_fail : {W : Type 0} → Call → Decoder W → (Decoder W → Turn W) → Turn W
or_fail (done r) d k = k (record d { rx = r })
or_fail (failed r) d k = gives (negsuc 0) (record d { rx = r })
or_fail Rxbuf.aborted d k = aborts

abbrev pub is_eol : ℕ → Bool
is_eol ch = ch == b'\n' || ch == b'\r'

abbrev pub lower : ℕ → ℕ
lower c = if leb b'A' c && leb c b'Z' then c + 32 else c

-- `strcasecmp(a, b) == 0`
unfoldable pub same_word : List ℕ → List ℕ → Bool
same_word [] [] = true
same_word (a ∷ s) (b ∷ l) = let rest = same_word s l in if lower a == lower b then rest else false
same_word _ _ = false

unfoldable pub find_word : List ℕ → List Command → Option Command
unfolding same_word
find_word cmd [] = none
find_word cmd (c ∷ l) =
    let later = find_word cmd l in if same_word c.word cmd then some c else later
