-- ===== src/Proto/Format.antt =====
-- to_binary_iov of lib/protofram.c: the printf-like format of a message becomes pieces of memory.
use infod.Prelude.{ℕ, zero, suc, ◌-◌, ◌%◌, List, [], ◌∷◌, ltb, ◌==◌, if◌then◌else◌, length, take}
use infod.Match.{cstr}

-- A variable argument: an int, or a pointer with the memory from there on.
pub data Arg : Type 0 where
  int : ℕ → Arg
  ptr : List ℕ → Arg

-- Pieces, the result -1, and an abort() or a read of a wrong or missing argument.
pub data Pieces : Type 0 where
  pieces : List (List ℕ) → Pieces
  refused undefined : Pieces

abbrev pub piece : List ℕ → Pieces → Pieces
piece p (pieces l) = pieces (p ∷ l)
piece p refused = refused
piece p undefined = undefined

-- Where the reading of the format stands: in front of an element, behind `%`, behind `%*`.
pub data Scan : Type 0 where
  plain percent star : Scan

abbrev Rest : Type 0
Rest = Scan → List Arg → ℕ → ℕ → Pieces

pub convert_char : List Arg → ℕ → ℕ → Rest → Pieces
convert_char (int n ∷ args) room (suc work) k = piece (n % 256 ∷ []) (k plain args (room - 1) work)
convert_char (int n ∷ args) room zero k = refused
convert_char _ room work k = undefined

pub convert_string : List Arg → ℕ → ℕ → Rest → Pieces
convert_string (ptr s ∷ args) room work k = piece (cstr s) (k plain args (room - 1) work)
convert_string _ room work k = undefined

pub convert_star : List Arg → ℕ → ℕ → Rest → Pieces
convert_star (int n ∷ ptr s ∷ args) room work k =
    if ltb (length s) n then undefined else piece (take n s) (k plain args (room - 1) work)
convert_star _ room work k = undefined

-- One byte of the format. `room` counts the iovs left and `work` the bytes of the work buffer left.
pub scan_step : ℕ → Scan → List Arg → ℕ → ℕ → Rest → Pieces
scan_step f plain args room work k =
    if f == b' '
    then k plain args room work
    else if f == b'%'
    then (if room == 0 then refused else k percent args room work)
    else refused
scan_step f percent args room work k =
    if f == b'*'
    then k star args room work
    else if f == b's'
    then convert_string args room work k
    else if f == b'c'
    then convert_char args room work k
    else refused
scan_step f star args room work k = if f == b's' then convert_star args room work k else undefined

pub scan : List ℕ → Scan → List Arg → ℕ → ℕ → Pieces
scan [] plain args room work = pieces []
scan [] percent args room work = refused
scan [] star args room work = undefined
scan (f ∷ fmt) st args room work = scan_step f st args room work (scan fmt)

unfoldable pub to_binary_iov : ℕ → ℕ → List ℕ → List Arg → Pieces
unfolding scan scan_step convert_char convert_string convert_star cstr
to_binary_iov maxiov worksz fmt args = scan fmt plain args maxiov worksz
