-- ===== src/Proto/Text/Message.antt =====
-- output_text of lib/prototext.c: a message and its arguments as a line of text.
use infod.Prelude.{
  ℕ, ◌+◌, ◌/◌, ◌%◌, negsuc, Bool, true, false, not, ◌&&◌, ◌||◌, Option, none, some, List, [], ◌∷◌,
  ltb, ◌==◌, if◌then◌else◌, length, take,
}
use infod.Match.{deref, advance, cstr}
use infod.Proto.Base.{Callbacks}
use infod.Proto.Format.{Arg, int, ptr, Scan, plain, percent, star}
use infod.Proto.Text.{Command, cmdtab, find_id}
use infod.Proto.Text.Output.{
  Out, Step, value, undefined, and_then, outbuf_flush, proto_outbuf, outbuf_putc,
  output_text_string,
}

-- `snprintf(ibuf, sizeof ibuf, "%u", n)` for a byte.
unfoldable pub decimal : ℕ → List ℕ
decimal n =
    if ltb n 10
    then (b'0' + n) ∷ []
    else if ltb n 100
    then (b'0' + n / 10) ∷ (b'0' + n % 10) ∷ []
    else (b'0' + n / 100) ∷ (b'0' + n / 10 % 10) ∷ (b'0' + n % 10) ∷ []

-- The next element of the table's format behind any `|`.
unfoldable pub after_bars : List ℕ → List ℕ
after_bars [] = []
after_bars (t ∷ tfmt) = let rest = after_bars tfmt in if t == b'|' then rest else t ∷ tfmt

-- The place in the table's format, and `optional`.
pub record Table : Type 0 where
  pub tfmt : List ℕ
  pub optional : Bool

-- `t = *tfmt++; while (t == '|') { optional = 1; t = *tfmt++; }`, up to t itself.
unfoldable pub next_element : Table → Table
unfolding after_bars
next_element tab = record {
  tfmt = after_bars tab.tfmt;
  optional = tab.optional || (deref tab.tfmt == b'|');
}

abbrev pub past : Table → Table
past tab = record tab { tfmt = advance tab.tfmt }

unfoldable pub only_spaces : List ℕ → Bool
only_spaces [] = true
only_spaces (c ∷ s) = let rest = only_spaces s in if c == b' ' then rest else false

unfoldable pub has_nul : List ℕ → Bool
has_nul [] = false
has_nul (c ∷ s) = let rest = has_nul s in if c == 0 then true else rest

-- The bytes behind the first NUL.
unfoldable pub after_nul : List ℕ → List ℕ
after_nul [] = []
after_nul (c ∷ s) = let rest = after_nul s in if c == 0 then s else rest

abbrev pub is_text_pair : List ℕ → Bool
is_text_pair tfmt =
    deref tfmt == b'|'
    && (deref (advance tfmt) == b'0'
        && (deref (advance (advance tfmt)) == b't' && (length tfmt == 3)))

module _ {W : Type 0} (cb : Callbacks W) where
  abbrev Rest : Type 0
  Rest = Scan → Table → List Arg → Out W → Step W

  -- EINVAL
  abbrev pub refuse : Out W → Step W
  refuse o = value (negsuc 0) o

  unfoldable pub output_int : Table → List Arg → Out W → Rest → Step W
  output_int tab (int n ∷ args) o k =
      and_then (proto_outbuf cb (decimal (n % 256)) o) (k plain (past tab) args)
  output_int tab _ o k = undefined

  unfoldable pub output_nul : Table → List Arg → Out W → Rest → Step W
  output_nul tab (int n ∷ args) o k = if n == 0 then k plain (past tab) args o else refuse o
  output_nul tab _ o k = undefined

  unfoldable pub output_string : Table → List Arg → Out W → Rest → Step W
  output_string tab (ptr s ∷ args) o k =
      and_then (output_text_string cb (cstr s) o) (k plain (past tab) args)
  output_string tab _ o k = undefined

  -- Key and value of `t|0t`, in one argument.
  unfoldable pub output_pair : List ℕ → List Arg → Out W → Rest → Step W
  output_pair s args o k = and_then (output_text_string cb (cstr s) o) (λ o₁.
      and_then (outbuf_putc cb b' ' o₁) (λ o₂.
        and_then (output_text_string cb (after_nul s) o₂)
          (k plain (record { tfmt = []; optional = true }) args)))

  unfoldable pub output_sized : Table → List ℕ → List Arg → Out W → Rest → Step W
  unfolding only_spaces has_nul
  output_sized tab fmt (int n ∷ ptr s ∷ args) o k =
      if ltb (length s) n
      then undefined
      else if is_text_pair (advance tab.tfmt) && (only_spaces fmt && has_nul (take n s))
      then output_pair (take n s) args o k
      else and_then (output_text_string cb (take n s) o) (k plain (past tab) args)
  output_sized tab fmt _ o k = undefined

  -- An element of the table's format against the byte behind `%`, the space before it written.
  unfoldable pub convert : ℕ → Table → List Arg → Out W → Rest → Step W
  convert f tab args o k =
      let t = deref tab.tfmt in
      if t == b'i'
      then (if f == b'c' then output_int tab args o k else refuse o)
      else if t == b'0'
      then (if f == b'c' then output_nul tab args o k else refuse o)
      else if t == b't'
      then (if f == b'*'
          then k star tab args o
          else if f == b's'
          then output_string tab args o k
          else refuse o)
      else refuse o

  unfoldable pub percent_step : ℕ → Table → List Arg → Out W → Rest → Step W
  percent_step f tab args o k =
      let here = next_element tab in
      if deref here.tfmt == b'0'
      then convert f here args o k
      else and_then (outbuf_putc cb b' ' o) (λ o'. convert f here args o' k)

  -- One byte of the format, with the rest of it.
  unfoldable pub output_step : ℕ → List ℕ → Scan → Table → List Arg → Out W → Rest → Step W
  output_step f fmt plain tab args o k =
      if f == b' ' then k plain tab args o else if f == b'%' then k percent tab args o else refuse o
  output_step f fmt percent tab args o k = percent_step f tab args o k
  output_step f fmt star tab args o k =
      if f == b's' then output_sized tab fmt args o k else refuse o

  unfoldable pub end_line : Table → Out W → Step W
  end_line tab o =
      if not tab.optional && (not (deref tab.tfmt == 0) && not (deref tab.tfmt == b'|'))
      then refuse o
      else and_then (proto_outbuf cb (b'\r' ∷ b'\n' ∷ []) o) (outbuf_flush cb)

  -- Behind `%` or `%*` the NUL that ends the format fits no element, so that nothing comes after it.
  unfoldable pub output_args : List ℕ → Scan → Table → List Arg → Out W → Step W
  output_args [] plain tab args o = end_line tab o
  output_args [] percent tab args o = percent_step 0 tab args o (λ st tab' args' o'. refuse o')
  output_args [] star tab args o = refuse o
  output_args (f ∷ fmt) st tab args o = output_step f fmt st tab args o (output_args fmt)

  unfoldable pub output_line : List ℕ → List Arg → Out W → Option Command → Step W
  output_line fmt args o none = refuse o
  output_line fmt args o (some c) =
      and_then (proto_outbuf cb c.word o)
        (output_args fmt plain (record { tfmt = c.fmt; optional = false }) args)

  unfoldable pub output_text : ℕ → List ℕ → List Arg → W → Step W
  output_text msg fmt args w =
      output_line fmt args (record { outbuf = []; world = w }) (find_id msg cmdtab)
