-- ===== src/Proto/Text/Output/Buffer.antt =====
-- What the output buffer of lib/prototext.c sends, and where it overflows.
use infod.Prelude.{
  ℕ, ◌+◌, ◌≤◌, ◌≡◌, refl, sym, ◌∙◌, ap, pos, false, List, [], ◌∷◌, ◌++◌, arith, ltb, leb, ◌==◌,
  if◌then◌else◌, length, take, drop, length-append, take-append-drop, inl, inr, Bool-cases, All,
}
use mathlib.Core.Path.{subst}
use mathlib.Core.List.{append_assoc, append-nil}
use infod.Proto.Base.{wire}
use infod.Proto.Text.Output.{
  Out, Step, value, undefined, and_then, outbuf_size, outbuf_flush, space, append, pack_and_drain,
  proto_outbuf, outbuf_putc, is_special, octal, output_char, output_chars, output_text_string,
}

abbrev pub Line : Type 0
Line = Out (List ℕ)

-- What has been sent, and what is ready to be.
abbrev pub sent : Line → List ℕ
sent o = o.world ++ o.outbuf

-- The call succeeds, and `p` is what it adds to the output.
abbrev pub Adds : Line → List ℕ → Step (List ℕ) → Type 0
Adds o p (value n o') =
    (n ≡ pos 0) × (sent o' ≡ sent o ++ p) × (length o'.outbuf ≤ length o.outbuf + length p)
Adds o p undefined = ⊥

abbrev pub HasRoom : Line → List ℕ → Type 0
HasRoom o p = length o.outbuf + length p ≤ outbuf_size

pub and_then-Adds :
    (o : Line) (p q : List ℕ) (s : Step (List ℕ)) (k : Line → Step (List ℕ))
    → Adds o p s
    → ((o' : Line) → length o'.outbuf ≤ length o.outbuf + length p → Adds o' q (k o'))
    → Adds o (p ++ q) (and_then s k)
and_then-Adds o p q undefined k h f = elim h [ ]
and_then-Adds o p q (value n o') k (e, t, l) f = rw e (chain (k o') (f o' l))
  where
    chain : (s : Step (List ℕ)) → Adds o' q s → Adds o (p ++ q) s
    chain undefined g = elim g [ ]
    chain (value m o'') (e', t', l') = (
      e',
      t' ∙ ap (λ x. x ++ q) t ∙ append_assoc (sent o) p q,
      omega (arith, l, l', length-append p q),
    )

append-Adds : (p : List ℕ) (o : Line) → HasRoom o p → Adds o p (append wire p o)
unfolding append
append-Adds p o h =
    let e : ltb outbuf_size (length o.outbuf + length p) ≡ false = ground arith in
    rw e (refl, sym (append_assoc o.world o.outbuf p), omega (arith, length-append o.outbuf p))

-- A flush adds nothing, and leaves the buffer empty.
flush-Adds : (o : Line) → Adds o [] (outbuf_flush wire o)
unfolding outbuf_flush
flush-Adds o = elim (Bool-cases (length o.outbuf == 0)) [
  | inl e ↦ rw e (refl, sym (append-nil (sent o)), omega arith)
  | inr e ↦ rw e (refl, ap (λ l. (o.world ++ l) ++ []) (append-nil o.outbuf), omega arith)
]

pack-Adds : (p : List ℕ) (o : Line) → HasRoom o p → Adds o p (pack_and_drain wire p o)
unfolding pack_and_drain
pack-Adds p o h =
    let a = take (space wire o) p in
    let b = drop (space wire o) p in
    let whole : a ++ b ≡ p = take-append-drop (space wire o) p in
    let room : length a + length b ≡ length p = sym (length-append a b) ∙ ap length whole in
    subst (λ q. Adds o q (pack_and_drain wire p o)) whole
      (and_then-Adds o a b (append wire a o) _ (append-Adds a o (omega (arith, h, room))) (λ o' l.
        and_then-Adds o' [] b (outbuf_flush wire o') _ (flush-Adds o')
          (λ o'' l'. append-Adds b o'' (omega (arith, h, room, l, l')))))

-- While the line fits in the buffer, proto_outbuf() adds its bytes.
pub proto_outbuf-Adds : (p : List ℕ) (o : Line) → HasRoom o p → Adds o p (proto_outbuf wire p o)
unfolding proto_outbuf
proto_outbuf-Adds p o h = elim (Bool-cases (leb (length p) (space wire o))) [
  | inl e ↦ rw e (append-Adds p o h)
  | inr e ↦ rw e (elim (Bool-cases (leb outbuf_size (length p))) [
    | inl f ↦ rw f (refl, simp (append_assoc, append-nil), omega arith)
    | inr f ↦ rw f (pack-Adds p o h)
  ])
]

putc-Adds : (ch : ℕ) (o : Line) → HasRoom o (ch ∷ []) → Adds o (ch ∷ []) (outbuf_putc wire ch o)
unfolding outbuf_putc
putc-Adds ch o h =
    and_then-Adds o (ch ∷ []) [] (append wire (ch ∷ []) o) _ (append-Adds (ch ∷ []) o h) (λ o' l.
      elim (Bool-cases (length o'.outbuf == outbuf_size)) [
        | inl e ↦ rw e (flush-Adds o')
        | inr e ↦ rw e (refl, sym (append-nil (sent o')), omega arith)
      ])

-- A byte of a quoted text.
unfoldable pub escaped : ℕ → List ℕ
escaped ch = if is_special ch then octal ch else ch ∷ []

abbrev pub escape : List ℕ → List ℕ
escape [] = []
escape (ch ∷ s) = escaped ch ++ escape s

char-Adds :
    (ch : ℕ) (o : Line) → HasRoom o (escaped ch) → Adds o (escaped ch) (output_char wire ch o)
unfolding output_char escaped
char-Adds ch o h = elim (Bool-cases (is_special ch)) [
  | inl e ↦ rw e (proto_outbuf-Adds (octal ch) o (rw e at h))
  | inr e ↦ rw e (putc-Adds ch o (rw e at h))
]

chars-Adds :
    (s : List ℕ) (o : Line) → HasRoom o (escape s) → Adds o (escape s) (output_chars wire s o)
unfolding output_chars
chars-Adds [] o h = (refl, sym (append-nil (sent o)), omega arith)
chars-Adds (ch ∷ s) o h =
    let room : length (escaped ch ++ escape s) ≡ length (escaped ch) + length (escape s) =
      length-append (escaped ch) (escape s) in
    and_then-Adds o (escaped ch) (escape s) (output_char wire ch o) (output_chars wire s)
      (char-Adds ch o (omega (arith, room, h)))
      (λ o' l. chars-Adds s o' (omega (arith, room, h, l)))

-- A quoted text.
abbrev pub quote : List ℕ → List ℕ
quote s = b'"' ∷ (escape s ++ (b'"' ∷ []))

length-escaped : (ch : ℕ) → 1 ≤ length (escaped ch)
unfolding escaped
length-escaped ch = ground arith

length-escape : (s : List ℕ) → length s ≤ length (escape s)
length-escape [] = omega arith
length-escape (ch ∷ s) =
    omega (arith, length-append (escaped ch) (escape s), length-escaped ch, length-escape s)

-- output_text_string() succeeds on a text whose quoted form fits in the output buffer together with
-- what is there, and adds exactly that form to the output: the text between quotes, with a backslash
-- and three octal digits for each newline, return, quote, backslash and NUL.
pub string-Adds :
    (s : List ℕ) (o : Line) → HasRoom o (quote s) → Adds o (quote s) (output_text_string wire s o)
unfolding output_text_string
string-Adds s o h =
    let room : length (quote s) ≡ length (escape s) + 2 =
      omega (arith, length-append (escape s) (b'"' ∷ [])) in
    let short : ltb 0xffff (length s) ≡ false = ground (arith, length-escape s, room, h) in
    rw short (
      and_then-Adds o (b'"' ∷ []) (escape s ++ (b'"' ∷ [])) (outbuf_putc wire b'"' o) _
        (putc-Adds b'"' o (omega (arith, room, h)))
        (λ o' l.
          and_then-Adds o' (escape s) (b'"' ∷ []) (output_chars wire s o') (outbuf_putc wire b'"')
            (chars-Adds s o' (omega (arith, room, h, l)))
            (λ o'' l'. putc-Adds b'"' o'' (omega (arith, room, h, l, l')))))

-- A text with no byte that is to be escaped.
abbrev pub IsPlain : List ℕ → Type 0
IsPlain s = All (λ ch. is_special ch ≡ false) s
