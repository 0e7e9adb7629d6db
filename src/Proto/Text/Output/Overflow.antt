-- ===== src/Proto/Text/Output/Overflow.antt =====
-- Where the output buffer of lib/prototext.c overflows.
use infod.Prelude.{
  ℕ, ◌+◌, ◌^◌, ◌≤◌, ◌<◌, ◌≡◌, refl, sym, ◌∙◌, ap, true, false, List, [], ◌∷◌, ◌++◌, arith, ltb, leb,
  ◌==◌, length, length-append,
}
use mathlib.Core.List.{append_assoc, append-nil}
use infod.Proto.Base.{wire}
use infod.Proto.Text.Output.{
  undefined, and_then, outbuf_size, space, append, proto_outbuf, outbuf_putc, is_special, octal,
  output_char, output_chars, output_text_string,
}
use infod.Proto.Text.Output.Buffer.{Line, IsPlain}

-- A write of fewer than 4096 bytes that does not fit is made all the same, once nine bytes are in
-- the buffer: the space is taken for 8 - outbuf_len, and wraps around.
proto_outbuf-overflow :
    (p : List ℕ) (o : Line)
    → 8 < length o.outbuf
    → length o.outbuf ≤ outbuf_size
    → outbuf_size < length o.outbuf + length p
    → length p < 2 ^ 31
    → proto_outbuf wire p o ≡ undefined
unfolding proto_outbuf append
proto_outbuf-overflow p o h l big small =
    let e : leb (length p) (space wire o) ≡ true = ground arith in
    let f : ltb outbuf_size (length o.outbuf + length p) ≡ true = ground arith in rw e (rw f refl)

plain-chars :
    (s t : List ℕ) (o : Line)
    → IsPlain s
    → length o.outbuf + length s < outbuf_size
    → output_chars wire (s ++ t) o ≡ output_chars wire t (record o { outbuf = o.outbuf ++ s })
unfolding output_chars output_char outbuf_putc append
plain-chars [] t o h l =
    ap (λ b. output_chars wire t (record o { outbuf = b })) (sym (append-nil o.outbuf))
plain-chars (ch ∷ s) t o h l =
    let fits : ltb outbuf_size (length o.outbuf + 1) ≡ false = ground arith in
    let open_end : (length (o.outbuf ++ (ch ∷ [])) == outbuf_size) ≡ false =
      ground (arith, length-append o.outbuf (ch ∷ [])) in
    rw (h.0) (
      rw fits (
        rw open_end (
          plain-chars s t (record o { outbuf = o.outbuf ++ (ch ∷ []) }) h.1
            (omega (arith, length-append o.outbuf (ch ∷ [])))
          ∙ ap (λ b. output_chars wire t (record o { outbuf = b }))
              (append_assoc o.outbuf (ch ∷ []) s))))

escape_overflow :
    (ch : ℕ) (t : List ℕ) (o : Line)
    → is_special ch ≡ true
    → 8 < length o.outbuf
    → length o.outbuf ≤ outbuf_size
    → outbuf_size < length o.outbuf + 4
    → and_then (output_chars wire (ch ∷ t) o) (outbuf_putc wire b'"') ≡ undefined
unfolding output_chars output_char
escape_overflow ch t o hc h l big =
    rw hc (rw (proto_outbuf-overflow (octal ch) o h l big (omega arith)) refl)

-- So an escape that is due when one to three bytes are left in the buffer writes past its end: this
-- quotes any text whose first special byte comes there.
pub output_text_string-overflow :
    (s t : List ℕ) (ch : ℕ) (o : Line)
    → IsPlain s
    → is_special ch ≡ true
    → length (s ++ (ch ∷ t)) ≤ 0xffff
    → 8 < length o.outbuf
    → outbuf_size < length o.outbuf + length s + 5
    → length o.outbuf + length s + 1 < outbuf_size
    → output_text_string wire (s ++ (ch ∷ t)) o ≡ undefined
unfolding output_text_string outbuf_putc append
output_text_string-overflow s t ch o hs hc short h big room =
    let small : ltb 0xffff (length (s ++ (ch ∷ t))) ≡ false = ground arith in
    let fits : ltb outbuf_size (length o.outbuf + 1) ≡ false = ground arith in
    let open_end : (length (o.outbuf ++ (b'"' ∷ [])) == outbuf_size) ≡ false =
      ground (arith, length-append o.outbuf (b'"' ∷ [])) in
    let start = record o { outbuf = o.outbuf ++ (b'"' ∷ []) } in
    let one : length start.outbuf ≡ length o.outbuf + 1 = length-append o.outbuf (b'"' ∷ []) in
    let full = record start { outbuf = start.outbuf ++ s } in
    let size : length full.outbuf ≡ length o.outbuf + 1 + length s =
      length-append start.outbuf s ∙ ap (λ n. n + length s) one in
    rw small (
      rw fits (
        rw open_end (
          rw (plain-chars s (ch ∷ t) start hs (omega (arith, one))) (
            escape_overflow ch t full hc (omega (arith, size)) (omega (arith, size))
              (omega (arith, size))))))
