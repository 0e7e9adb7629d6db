-- ===== src/Proto/Text.antt =====
-- lib/prototext.c: the table of commands and messages of the text mode.
pub mod Output
pub mod Message
pub mod Decoder
pub mod Input
mod Tests
use infod.Prelude.{
  ℕ, ◌+◌, Bool, true, false, ◌&&◌, Option, none, some, List, [], ◌∷◌, leb, ◌==◌, if◌then◌else◌,
}
use Prim.Native.String.{String}
use Prim.Native.String
use Prim.Native.Char.{code}
use infod.Proto.Base.{
  cmd_hello, cmd_sub, cmd_unsub, cmd_read, cmd_write, cmd_begin, cmd_commit, cmd_ping, msg_version,
  msg_info, msg_pong, msg_error,
}

-- The bytes of an ASCII text.
abbrev pub codes : String → List ℕ
codes String.[] = []
codes (String.◌∷◌ c s) = code c ∷ codes s

abbrev pub pseudo_help : ℕ
pseudo_help = 0xfe

-- A row of cmdtab. In `fmt`, i is a number, t a text, 0 a NUL, and what follows | is optional.
pub record Command : Type 0 where
  pub word : List ℕ
  pub id : ℕ
  pub fmt : List ℕ

abbrev pub command : String → ℕ → String → Command
command w i f = record { word = codes w; id = i; fmt = codes f }

abbrev pub cmdtab : List Command
cmdtab =
    command "HELLO" cmd_hello "i|t"
    ∷ command "SUB" cmd_sub "t"
    ∷ command "S" cmd_sub "t"
    ∷ command "UNSUB" cmd_unsub "t"
    ∷ command "U" cmd_unsub "t"
    ∷ command "READ" cmd_read "t"
    ∷ command "R" cmd_read "t"
    ∷ command "WRITE" cmd_write "t|0t"
    ∷ command "W" cmd_write "t|0t"
    ∷ command "BEGIN" cmd_begin ""
    ∷ command "B" cmd_begin ""
    ∷ command "COMMIT" cmd_commit ""
    ∷ command "C" cmd_commit ""
    ∷ command "PING" cmd_ping "|t"
    ∷ command "P" cmd_ping "|t"
    ∷ command "VERSION" msg_version "i|t"
    ∷ command "INFO" msg_info "t|0t"
    ∷ command "PONG" msg_pong "|t"
    ∷ command "ERROR" msg_error "it"
    ∷ command "HELP" pseudo_help ""
    ∷ command "H" pseudo_help ""
    ∷ []

-- The first row with the message number.
unfoldable pub find_id : ℕ → List Command → Option Command
find_id msg [] = none
find_id msg (c ∷ l) = let later = find_id msg l in if c.id == msg then some c else later
