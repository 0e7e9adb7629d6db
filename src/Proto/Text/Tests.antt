-- ===== src/Proto/Text/Tests.antt =====
-- The theorems on the text mode of lib/prototext.c at concrete inputs.
use infod.Prelude.{
  pos, Bool, true, false, none, some, ℕ, zero, suc, ◌+◌, ◌≡◌, refl, ◌∙◌, ap, List, [], ◌∷◌, ◌++◌,
  arith, length, length-append,
}
use infod.Rxbuf.{
  Rxbuf, empty, done, addc, add, clear, zeropad, resize, resize_to, roundup, trimspace,
}
use infod.Match.{cstr}
use infod.Rxbuf.Bounds.{IsValid}
use infod.Rxbuf.Append.{Appends}
use infod.Proto.Base.{Callbacks, wire, cmd_write}
use infod.Proto.Text.{codes}
use infod.Proto.Text.Decoder.{Decoder, Got, got, aborted, spins, t_bol, t_strbeg, t_argsp}
use infod.Proto.Text.Input.{recv_bytes, recv_text}
use infod.Proto.Text.Input.Rounds.{Ends, recv_text-Ends}
use infod.Proto.Text.Input.Quoted.{dec, quote_roundtrip}
use infod.Proto.Text.Output.{undefined, output_text_string, is_special}
use infod.Proto.Text.Output.Buffer.{Adds, Line, IsPlain, escaped, quote}
use infod.Proto.Text.Output.Overflow.{output_text_string-overflow}

letters : ℕ → List ℕ
letters zero = []
letters (suc n) = b'a' ∷ letters n

length-letters : (n : ℕ) → length (letters n) ≡ n
unfolding letters
length-letters zero = refl
length-letters (suc n) = omega (arith, length-letters n)

letters-IsPlain : (n : ℕ) → IsPlain (letters n)
unfolding letters is_special
letters-IsPlain zero = tt
letters-IsPlain (suc n) = (refl, letters-IsPlain n)

abbrev holding : ℕ → Line
holding n = record { outbuf = letters n; world = [] }

abbrev two_lines : List ℕ
two_lines = b'a' ∷ b'\n' ∷ b'b' ∷ []

output_text_string-overflow_example :
    output_text_string wire (letters 4083 ++ (b'\n' ∷ [])) (holding 9) ≡ undefined
unfolding is_special
output_text_string-overflow_example =
    let n : length (letters 4083) ≡ 4083 = length-letters 4083 in
    let m : length (letters 9) ≡ 9 = length-letters 9 in
    let k : length (letters 4083 ++ (b'\n' ∷ [])) ≡ 4084 =
      length-append (letters 4083) (b'\n' ∷ []) ∙ ap (λ i. i + 1) n in
    output_text_string-overflow (letters 4083) [] b'\n' (holding 9) (letters-IsPlain 4083) refl
      (omega (arith, k)) (omega (arith, m)) (omega (arith, n, m)) (omega (arith, n, m))

abbrev always : ℕ → Bool
always n = true

abbrev silent : Callbacks ℕ
silent = record { on_input = none; on_sendv = none }

empty-IsValid : IsValid empty
empty-IsValid = record { written = omega arith; fits = omega arith }

quote_roundtrip_example :
    Adds (holding 5) (quote two_lines) (output_text_string wire two_lines (holding 5))
    × ((v : ℕ) × (i : ℕ) × (r : Rxbuf) × (recv_bytes always silent
            (quote two_lines ++ (b'\r' ∷ []))
            (pos 0)
            (dec always (λ n. refl) silent [] [] false 0 t_strbeg 0 0 empty)
          ≡ recv_bytes always silent
              (b'\r' ∷ [])
              (pos (0 + length (quote two_lines)))
              (dec always (λ n. refl) silent [] [] false 0 t_argsp v i r))
        × Appends empty two_lines (done r))
unfolding letters escaped is_special
quote_roundtrip_example =
    quote_roundtrip always (λ n. refl) silent [] [] false 0 two_lines (b'\r' ∷ []) (holding 5) 0 0 0
      empty (omega arith) (omega arith, (omega arith, (omega arith, tt))) empty-IsValid
      (omega arith)

abbrev idle : Decoder (List ℕ)
idle = record {
  t = record { state = t_bol; fmt = []; intval = 0; cmd = []; counter = 0; optional = false };
  rx = empty;
  world = [];
}

abbrev note : Callbacks (List ℕ)
note = record { on_input = some (λ msg body w. (pos 1, msg ∷ body)); on_sendv = none }

abbrev given : Got (List ℕ) → List ℕ
given (got n d) = d.world
given aborted = []
given spins = []

-- A line as a client types it: the key, a NUL and the value are passed up behind the command.
types_write :
    given (recv_text always note (codes "  Write door  wide open \n") idle)
    ≡ cmd_write ∷ (codes "door" ++ (0 ∷ codes "wide open"))
unfolding recv_text addc clear zeropad resize resize_to roundup add trimspace cstr
types_write = refl

-- Where no digit comes, the decoder takes a 0.
recv_text-Ends_example : Ends always note (recv_text always note (codes "hello x y\n") idle)
recv_text-Ends_example = recv_text-Ends always note (codes "hello x y\n") idle (omega arith)
