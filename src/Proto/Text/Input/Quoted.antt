-- ===== src/Proto/Text/Input/Quoted.antt =====
-- A quoted text in the decoder of lib/prototext.c.
use infod.Prelude.{
  ℕ, suc, ◌+◌, ◌-◌, ◌*◌, ◌/◌, ◌%◌, ◌^◌, ◌<◌, ◌≡◌, refl, sym, ◌∙◌, ap, ℤ, pos, Bool, true, false,
  List, [], ◌∷◌, ◌++◌, ltb, ◌==◌, length, length-append, All, arith, Bool-cases, inl, inr,
}
use mathlib.Core.List.{append_assoc, append-nil}
use infod.Rxbuf.{Rxbuf, done, active, addc}
use infod.Rxbuf.Bounds.{IsValid}
use infod.Rxbuf.Append.{Appends, addc-done}
use infod.Proto.Base.{Callbacks, wire}
use infod.Proto.Text.Output.{is_special, octal, output_text_string}
use infod.Proto.Text.Output.Buffer.{escaped, escape, quote, Line, HasRoom, Adds, string-Adds}
use infod.Proto.Text.Decoder.{Tstate, t_argsp, t_strbeg, t_qstr, t_qoct, Decoder, got, gives}
use infod.Proto.Text.Input.{
  after_turn, turn, turns, recv_text_1ch, recv_bytes, on_qstr, on_qoct, on_strbeg,
}

abbrev pub IsByte : ℕ → Type 0
IsByte c = c < 256

module _ {W : Type 0} (can_alloc : ℕ → Bool) (grants : (k : ℕ) → can_alloc k ≡ true)
    (cb : Callbacks W) (fmt cmd : List ℕ) (optional : Bool) (w : W) where
  abbrev pub dec : Tstate → ℕ → ℕ → Rxbuf → Decoder W
  dec s n k rx = record {
    t = record { state = s; fmt = fmt; intval = n; cmd = cmd; counter = k; optional = optional };
    rx = rx;
    world = w;
  }

  one_turn :
      (c : ℕ) (n : ℤ) (d d' : Decoder W)
      → turn can_alloc cb d.t.state c d ≡ gives n d'
      → recv_text_1ch can_alloc cb c d ≡ got n d'
  unfolding recv_text_1ch turns
  one_turn c n d d' e = ap (λ t. after_turn can_alloc cb t (turns can_alloc cb 11 c)) e

  plain_turn :
      (c n k : ℕ) (rx r : Rxbuf)
      → is_special c ≡ false
      → addc can_alloc rx c ≡ done r
      → turn can_alloc cb t_qstr c (dec t_qstr n k rx) ≡ gives (pos 1) (dec t_qstr n k r)
  unfolding turn on_qstr is_special
  plain_turn c n k rx r h e =
      let lf : (c == b'\n') ≡ false = ground (arith, h) in
      let cr : (c == b'\r') ≡ false = ground (arith, h) in
      let quotes : (c == b'"') ≡ false = ground (arith, h) in
      let slash : (c == b'\\') ≡ false = ground (arith, h) in
      rw lf (rw cr (rw slash (rw quotes (rw e refl))))

  backslash :
      (n k : ℕ) (rx : Rxbuf)
      → recv_text_1ch can_alloc cb b'\\' (dec t_qstr n k rx) ≡ got (pos 1) (dec t_qoct 0 3 rx)
  unfolding recv_text_1ch turns turn on_qstr
  backslash n k rx = refl

  digit_turn :
      (v n k : ℕ) (rx : Rxbuf)
      → v < 8
      → turn can_alloc cb t_qoct (b'0' + v) (dec t_qoct n (suc (suc k)) rx)
        ≡ gives (pos 1) (dec t_qoct ((n * 8 + v) % 2 ^ 16) (suc k) rx)
  unfolding turn on_qoct
  digit_turn v n k rx h =
      let low : ltb (b'0' + v) b'0' ≡ false = ground arith in
      let high : ltb b'7' (b'0' + v) ≡ false = ground arith in
      let value : b'0' + v - b'0' ≡ v = omega arith in
      let minus : suc (suc k) - 1 ≡ suc k = omega arith in
      let more : (suc k == 0) ≡ false = ground arith in
      rw low (rw high (rw value (rw minus (rw more refl))))

  last_turn :
      (v n : ℕ) (rx r : Rxbuf)
      → v < 8
      → addc can_alloc rx ((n * 8 + v) % 2 ^ 16 % 256) ≡ done r
      → turn can_alloc cb t_qoct (b'0' + v) (dec t_qoct n 1 rx)
        ≡ gives (pos 1) (dec t_qstr ((n * 8 + v) % 2 ^ 16) 0 r)
  unfolding turn on_qoct
  last_turn v n rx r h e =
      let low : ltb (b'0' + v) b'0' ≡ false = ground arith in
      let high : ltb b'7' (b'0' + v) ≡ false = ground arith in
      let value : b'0' + v - b'0' ≡ v = omega arith in rw low (rw high (rw value (rw e refl)))

  -- The rest of the input behind a byte that is taken.
  then_rest :
      (c : ℕ) (net : List ℕ) (n : ℕ) (d d' : Decoder W)
      → recv_text_1ch can_alloc cb c d ≡ got (pos 1) d'
      → recv_bytes can_alloc cb (c ∷ net) (pos n) d ≡ recv_bytes can_alloc cb net (pos (n + 1)) d'
  unfolding recv_bytes
  then_rest c net n d d' e = rw e refl

  octal_bytes :
      (c : ℕ) (net : List ℕ) (m n k : ℕ) (rx r : Rxbuf)
      → IsByte c
      → addc can_alloc rx c ≡ done r
      → recv_bytes can_alloc cb (octal c ++ net) (pos m) (dec t_qstr n k rx)
        ≡ recv_bytes can_alloc cb net (pos (m + 4)) (dec t_qstr c 0 r)
  octal_bytes c net m n k rx r h e =
      let a = (0 * 8 + c / 64 % 8) % 2 ^ 16 in
      let b = (a * 8 + c / 8 % 8) % 2 ^ 16 in
      let byte : (b * 8 + c % 8) % 2 ^ 16 ≡ c = omega arith in
      let low : c % 256 ≡ c = omega arith in
      let stored : addc can_alloc rx ((b * 8 + c % 8) % 2 ^ 16 % 256) ≡ done r =
        rw byte (rw low e) in
      let sum : m + 1 + 1 + 1 + 1 ≡ m + 4 = omega arith in
      then_rest b'\\' _ m _ _ (backslash n k rx)
      ∙ then_rest (b'0' + c / 64 % 8) _ (m + 1) _ _
          (one_turn _ _ (dec t_qoct 0 3 rx) _ (digit_turn (c / 64 % 8) 0 1 rx (omega arith)))
      ∙ then_rest (b'0' + c / 8 % 8) _ (m + 1 + 1) _ _
          (one_turn _ _ (dec t_qoct a 2 rx) _ (digit_turn (c / 8 % 8) a 0 rx (omega arith)))
      ∙ then_rest (b'0' + c % 8) _ (m + 1 + 1 + 1) _ _
          (one_turn _ _ (dec t_qoct b 1 rx) _ (last_turn (c % 8) b rx r (omega arith) stored))
      ∙ ap (λ i. recv_bytes can_alloc cb net (pos i) (dec t_qstr ((b * 8 + c % 8) % 2 ^ 16) 0 r))
          sum
      ∙ ap (λ v. recv_bytes can_alloc cb net (pos (m + 4)) (dec t_qstr v 0 r)) byte

  -- What has been read of a quoted text.
  abbrev pub Reads : List ℕ → List ℕ → List ℕ → ℕ → Rxbuf → Decoder W → Type 0
  Reads p text net m rx d =
      (v : ℕ) × (i : ℕ) × (r : Rxbuf) × (recv_bytes can_alloc cb (text ++ net) (pos m) d
        ≡ recv_bytes can_alloc cb net (pos (m + length text)) (dec t_qstr v i r))
      × Appends rx p (done r)

  escaped_byte :
      (c : ℕ) (net : List ℕ) (m n k : ℕ) (rx : Rxbuf)
      → IsByte c
      → IsValid rx
      → rx.len + 1 < 0x10000
      → Reads (c ∷ []) (escaped c) net m rx (dec t_qstr n k rx)
  unfolding escaped
  escaped_byte c net m n k rx h v l =
      let (r, e, p) = addc-done can_alloc grants rx c v l in
      elim (Bool-cases (is_special c)) [
        | inl s ↦ rw s (c, 0, r, octal_bytes c net m n k rx r h e, p)
        | inr s ↦ rw s (
          n,
          k,
          r,
          then_rest c net m _ _
              (one_turn c (pos 1) (dec t_qstr n k rx) _ (plain_turn c n k rx r s e)),
          p,
        )
      ]

  join-Appends :
      (rx r r' : Rxbuf) (p q : List ℕ)
      → Appends rx p (done r)
      → Appends r q (done r')
      → Appends rx (p ++ q) (done r')
  join-Appends rx r r' p q (v, l, a) (v', l', a') = (
    v',
    omega (arith, l, l', length-append p q),
    a' ∙ ap (λ x. x ++ q) a ∙ append_assoc (active rx) p q,
  )

  quoted_bytes :
      (s net : List ℕ) (m n k : ℕ) (rx : Rxbuf)
      → All IsByte s
      → IsValid rx
      → rx.len + length s < 0x10000
      → Reads s (escape s) net m rx (dec t_qstr n k rx)
  quoted_bytes [] net m n k rx h v l = (
    n,
    k,
    rx,
    ap (λ i. recv_bytes can_alloc cb net (pos i) (dec t_qstr n k rx)) (omega arith),
    (v, omega arith, sym (append-nil (active rx))),
  )
  quoted_bytes (c ∷ s) net m n k rx h v l =
      let (n', k', r, e, p) = escaped_byte c (escape s ++ net) m n k rx h.0 v (omega arith) in
      let (n'', k'', r', e', p') =
        quoted_bytes s net (m + length (escaped c)) n' k' r h.1 p.0 (omega (arith, p.1, l)) in
      let size : m + length (escaped c) + length (escape s) ≡ m + length (escaped c ++ escape s) =
        omega (arith, length-append (escaped c) (escape s)) in
      (
        n'',
        k'',
        r',
        ap (λ x. recv_bytes can_alloc cb x (pos m) (dec t_qstr n k rx))
              (append_assoc (escaped c) (escape s) net)
            ∙ e
            ∙ e'
            ∙ ap (λ i. recv_bytes can_alloc cb net (pos i) (dec t_qstr n'' k'' r')) size,
        join-Appends rx r r' (c ∷ []) s p p',
      )

  opens :
      (n k : ℕ) (rx : Rxbuf)
      → recv_text_1ch can_alloc cb b'"' (dec t_strbeg n k rx) ≡ got (pos 1) (dec t_qstr n k rx)
  unfolding recv_text_1ch turns turn on_strbeg
  opens n k rx = refl

  closes :
      (n k : ℕ) (rx : Rxbuf)
      → recv_text_1ch can_alloc cb b'"' (dec t_qstr n k rx) ≡ got (pos 1) (dec t_argsp n k rx)
  unfolding recv_text_1ch turns turn on_qstr
  closes n k rx = refl

-- A text of bytes, whose quoted form fits in the output buffer: output_text_string() adds the quoted
-- form to the output; and recv_text_1ch(), where an argument's text may start, with memory granted and
-- room for the text below 65536 bytes in the receive buffer, takes in just these bytes, appends the
-- text itself to the buffer, and waits for the next argument. Whatever follows is then read from there.
pub quote_roundtrip :
    {W : Type 0} (can_alloc : ℕ → Bool) (grants : (k : ℕ) → can_alloc k ≡ true)
    → (cb : Callbacks W) (fmt cmd : List ℕ) (optional : Bool) (w : W) (s net : List ℕ) (o : Line)
      (m n k : ℕ) (rx : Rxbuf)
    → HasRoom o (quote s)
    → All IsByte s
    → IsValid rx
    → rx.len + length s < 0x10000
    → Adds o (quote s) (output_text_string wire s o)
      × ((v : ℕ) × (i : ℕ) × (r : Rxbuf) × (recv_bytes can_alloc cb
              (quote s ++ net)
              (pos m)
              (dec can_alloc grants cb fmt cmd optional w t_strbeg n k rx)
            ≡ recv_bytes can_alloc cb net
                (pos (m + length (quote s)))
                (dec can_alloc grants cb fmt cmd optional w t_argsp v i r))
          × Appends rx s (done r))
quote_roundtrip can_alloc grants cb fmt cmd optional w s net o m n k rx room h v l =
    let byte = recv_bytes can_alloc cb in
    let at = dec can_alloc grants cb fmt cmd optional w in
    let (n', k', r, e, p) =
      quoted_bytes can_alloc grants cb fmt cmd optional w s (b'"' ∷ net) (m + 1) n k rx h v l in
    let size : m + 1 + length (escape s) + 1 ≡ m + length (quote s) =
      omega (arith, length-append (escape s) (b'"' ∷ [])) in
    (
      string-Adds s o room,
      (
        n',
        k',
        r,
        then_rest can_alloc grants cb fmt cmd optional w b'"' ((escape s ++ (b'"' ∷ [])) ++ net) m _
              _ (opens can_alloc grants cb fmt cmd optional w n k rx)
            ∙ ap (λ x. byte x (pos (m + 1)) (at t_qstr n k rx))
                (append_assoc (escape s) (b'"' ∷ []) net)
            ∙ e
            ∙ then_rest can_alloc grants cb fmt cmd optional w b'"' net (m + 1 + length (escape s))
                _ _ (closes can_alloc grants cb fmt cmd optional w n' k' r)
            ∙ ap (λ i. byte net (pos i) (at t_argsp n' k' r)) size,
        p,
      ),
    )
