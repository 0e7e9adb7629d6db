-- ===== src/Proto/Text/Output.antt =====
-- The text encoder of lib/prototext.c: a line is composed in a static buffer of 4096 bytes.
-- A size_t has eight bytes. A write outside the buffer is undefined.
pub mod Buffer
pub mod Overflow
use infod.Prelude.{
  ℕ, zero, suc, ◌+◌, ◌-◌, ◌/◌, ◌%◌, ◌^◌, ℤ, pos, negsuc, is_failure, Bool, true, false, not, ◌&&◌,
  ◌||◌, Option, none, some, List, [], ◌∷◌, ◌++◌, ltb, leb, ◌==◌, if◌then◌else◌, length, take, drop,
}
use infod.Match.{deref, advance, cstr}
use infod.Proto.Base.{Callbacks, send}
use infod.Proto.Format.{Arg, int, ptr, Scan, plain, percent, star}
use infod.Proto.Text.{Command, cmdtab, find_id, codes}

abbrev pub outbuf_size : ℕ
outbuf_size = 4096

-- outbuf[0 .. outbuf_len), and the world.
pub record Out (W : Type 0) : Type 0 where
  pub outbuf : List ℕ
  pub world : W

-- A call returns a number, or it writes outside the buffer or reads a wrong argument.
pub data Step (W : Type 0) : Type 0 where
  value : ℤ → Out W → Step W
  undefined : Step W

-- `if (call == -1) return -1;`
abbrev pub and_then : {W : Type 0} → Step W → (Out W → Step W) → Step W
and_then (value n o) k = if is_failure n then value (negsuc 0) o else k o
and_then undefined k = undefined

abbrev pub success : {W : Type 0} → Out W → Step W
success o = value (pos 0) o

unfoldable pub is_special : ℕ → Bool
is_special ch = ch == b'\n' || (ch == b'\r' || (ch == b'"' || (ch == b'\\' || ch == 0)))

-- A backslash and three octal digits.
abbrev pub octal : ℕ → List ℕ
octal ch = b'\\' ∷ (b'0' + ch / 64 % 8) ∷ (b'0' + ch / 8 % 8) ∷ (b'0' + ch % 8) ∷ []

module _ {W : Type 0} (cb : Callbacks W) where
  -- on_sendv() with an emptied buffer behind it.
  abbrev pub deliver : List (List ℕ) → List ℕ → W → Step W
  deliver iov rest w = let (n, w') = send cb iov w in value n (record { outbuf = rest; world = w' })

  unfoldable pub outbuf_flush : Out W → Step W
  outbuf_flush o = if length o.outbuf == 0 then success o else deliver (o.outbuf ∷ []) [] o.world

  -- `sizeof sizeof outbuf - outbuf_len`, an unsigned int.
  abbrev pub space : Out W → ℕ
  space o = (8 + 2 ^ 32 - length o.outbuf) % 2 ^ 32

  -- memcpy() to the end of the buffer.
  unfoldable pub append : List ℕ → Out W → Step W
  append p o =
      if ltb outbuf_size (length o.outbuf + length p)
      then undefined
      else success (record o { outbuf = o.outbuf ++ p })

  -- The buffer is filled up and sent, and the rest starts a new one.
  unfoldable pub pack_and_drain : List ℕ → Out W → Step W
  pack_and_drain p o =
      and_then (append (take (space o) p) o)
        (λ o'. and_then (outbuf_flush o') (append (drop (space o) p)))

  unfoldable pub proto_outbuf : List ℕ → Out W → Step W
  unfolding append pack_and_drain outbuf_flush
  proto_outbuf p o =
      if leb (length p) (space o)
      then append p o
      else if leb outbuf_size (length p)
      then deliver (o.outbuf ∷ p ∷ []) [] o.world
      else pack_and_drain p o

  unfoldable pub outbuf_putc : ℕ → Out W → Step W
  unfolding append outbuf_flush
  outbuf_putc ch o =
      and_then (append (ch ∷ []) o)
        (λ o'. if length o'.outbuf == outbuf_size then outbuf_flush o' else success o')

  unfoldable pub output_char : ℕ → Out W → Step W
  unfolding is_special
  output_char ch o = if is_special ch then proto_outbuf (octal ch) o else outbuf_putc ch o

  unfoldable pub output_chars : List ℕ → Out W → Step W
  output_chars [] o = success o
  output_chars (ch ∷ s) o = and_then (output_char ch o) (output_chars s)

  unfoldable pub output_text_string : List ℕ → Out W → Step W
  output_text_string s o =
      if ltb 0xffff (length s)
      then value (negsuc 0) o
      else and_then (outbuf_putc b'"' o) (λ o'. and_then (output_chars s o') (outbuf_putc b'"'))
