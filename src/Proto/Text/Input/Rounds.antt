-- ===== src/Proto/Text/Input/Rounds.antt =====
-- `goto again` in recv_text_1ch() of lib/prototext.c comes to an end.
use infod.Prelude.{
  ℕ, zero, suc, ◌≤◌, ◌<◌, ◌≡◌, refl, ℤ, pos, is_positive, is_failure, Bool, Option, none, some,
  List, [], ◌∷◌, length, arith, Bool-cases, inl, inr,
}
use infod.Proto.Base.{Callbacks}
use infod.Proto.Text.Decoder.{
  Tstate, t_error, t_bol, t_cmd, t_argsp, t_int, t_strbeg, t_str, t_qstr, t_qoct, Decoder, Turn,
  gives, again, aborts, Got, got, aborted, spins, enter, is_eol,
}
use infod.Proto.Text.Input.{
  turn, after_turn, turns, recv_text_1ch, and_more, recv_bytes, at_eof, after_eol, recv_text,
}
use infod.Proto.Text.Input.Weight.{IsShort, Lowers, Lowers-if, rounds, weight}
use infod.Proto.Text.Input.Handlers.{
  on_argsp-Lowers, on_bol-Lowers, on_bol-eol, on_cmd-Lowers, on_int-Lowers, on_qoct-Lowers,
  on_qstr-Lowers, on_str-Lowers, on_strbeg-Lowers,
}

module _ {W : Type 0} (can_alloc : ℕ → Bool) (cb : Callbacks W) where
  turn-Lowers :
      (s : Tstate) (ch : ℕ) (d : Decoder W)
      → d.t.state ≡ s
      → IsShort d
      → Lowers (weight s (length d.t.fmt)) (turn can_alloc cb s ch d)
  unfolding turn
  turn-Lowers t_error ch d e h =
      Lowers-if 0 (is_eol ch) _ _ (λ f. on_bol-eol can_alloc cb ch (enter t_bol d) f h) (λ _. h)
  turn-Lowers t_bol ch d e h = on_bol-Lowers can_alloc cb ch d h
  turn-Lowers t_cmd ch d e h = on_cmd-Lowers can_alloc cb ch d h
  turn-Lowers t_argsp ch d e h = on_argsp-Lowers can_alloc cb ch d e h
  turn-Lowers t_int ch d e h = on_int-Lowers can_alloc cb ch d h
  turn-Lowers t_strbeg ch d e h = on_strbeg-Lowers can_alloc cb ch d h
  turn-Lowers t_str ch d e h = on_str-Lowers can_alloc cb ch d h
  turn-Lowers t_qstr ch d e h = on_qstr-Lowers can_alloc cb ch d h
  turn-Lowers t_qoct ch d e h = on_qoct-Lowers can_alloc cb ch d h

  -- The loop ends, and leaves a format with four elements at most.
  abbrev pub Ends : Got W → Type 0
  Ends (got n d) = IsShort d
  Ends aborted = Unit
  Ends spins = ⊥

  after_turn-Ends :
      (n : ℕ) (t : Turn W) (k : Decoder W → Got W)
      → Lowers n t
      → ((d : Decoder W) → rounds d < n → IsShort d → Ends (k d))
      → Ends (after_turn can_alloc cb t k)
  after_turn-Ends n (gives m d) k h f = h
  after_turn-Ends n (again d) k h f = f d h.0 h.1
  after_turn-Ends n aborts k h f = tt

  turns-Ends :
      (fuel ch : ℕ) (d : Decoder W)
      → rounds d < fuel
      → IsShort d
      → Ends (turns can_alloc cb fuel ch d)
  unfolding turns
  turns-Ends zero ch d l h = absurd (omega arith)
  turns-Ends (suc fuel) ch d l h =
      after_turn-Ends (rounds d) (turn can_alloc cb d.t.state ch d) _
        (turn-Lowers d.t.state ch d refl h)
        (λ d' l' h'. turns-Ends fuel ch d' (omega (arith, l, l')) h')

  weight_le : (s : Tstate) (k : ℕ) → k ≤ 4 → weight s k ≤ 10
  weight_le t_error k h = omega arith
  weight_le t_bol k h = omega arith
  weight_le t_cmd k h = omega arith
  weight_le t_argsp k h = omega arith
  weight_le t_int k h = omega arith
  weight_le t_strbeg k h = omega arith
  weight_le t_str k h = omega arith
  weight_le t_qstr k h = omega arith
  weight_le t_qoct k h = omega arith

  recv_text_1ch-Ends : (ch : ℕ) (d : Decoder W) → IsShort d → Ends (recv_text_1ch can_alloc cb ch d)
  unfolding recv_text_1ch
  recv_text_1ch-Ends ch d h =
      turns-Ends 12 ch d (omega (arith, weight_le d.t.state (length d.t.fmt) h)) h

  and_more-Ends :
      (ret : ℤ) (g : Got W) (k : ℤ → Decoder W → Got W)
      → Ends g
      → ((n : ℤ) (d : Decoder W) → IsShort d → Ends (k n d))
      → Ends (and_more can_alloc cb ret g k)
  and_more-Ends ret (got n d) k h f = elim (Bool-cases (is_positive n)) [
    | inl e ↦ rw e (f _ d h)
    | inr e ↦ rw e h
  ]
  and_more-Ends ret aborted k h f = tt
  and_more-Ends ret spins k h f = h

  recv_bytes-Ends :
      (net : List ℕ) (ret : ℤ) (d : Decoder W)
      → IsShort d
      → Ends (recv_bytes can_alloc cb net ret d)
  unfolding recv_bytes
  recv_bytes-Ends [] ret d h = h
  recv_bytes-Ends (ch ∷ net) ret d h =
      and_more-Ends ret (recv_text_1ch can_alloc cb ch d) _ (recv_text_1ch-Ends ch d h)
        (λ n d' h'. recv_bytes-Ends net n d' h')

  at_eof-Ends :
      (o : Option (ℕ → List ℕ → W → ℤ × W)) (d : Decoder W)
      → IsShort d
      → Ends (at_eof can_alloc cb o d)
  at_eof-Ends none d h = h
  at_eof-Ends (some f) d h = h

  after_eol-Ends : (g : Got W) → Ends g → Ends (after_eol can_alloc cb g)
  after_eol-Ends (got n d) h = elim (Bool-cases (is_failure n)) [
    | inl e ↦ rw e h
    | inr e ↦ rw e (at_eof-Ends cb.on_input d h)
  ]
  after_eol-Ends aborted h = tt
  after_eol-Ends spins h = h

  -- From a state whose format has at most four elements, as it has at first and after every call, the
  -- twelve rounds that each byte is given are enough: for any input recv_text() comes to an end, and
  -- the format has at most four elements again. It may end in abort() or in a write outside the output
  -- buffer.
  pub recv_text-Ends :
      (net : List ℕ) (d : Decoder W) → IsShort d → Ends (recv_text can_alloc cb net d)
  unfolding recv_text
  recv_text-Ends [] d h = after_eol-Ends _ (recv_text_1ch-Ends b'\n' d h)
  recv_text-Ends (ch ∷ net) d h = recv_bytes-Ends (ch ∷ net) (pos 0) d h
