-- ===== src/Proto/Text/Input/Handlers.antt =====
-- The handlers of lib/prototext.c enter the switch again only nearer to the end.
use infod.Prelude.{
  ℕ, ◌+◌, ◌-◌, ◌*◌, ◌%◌, ◌^◌, ◌≤◌, ◌<◌, ◌≡◌, refl, ◌∙◌, ap, ℤ, is_positive, Bool, true, false, not,
  ◌&&◌, ◌||◌, Option, none, some, List, [], ◌∷◌, ◌++◌, ltb, leb, ◌==◌, length, All, arith,
  Bool-cases, inl, inr,
}
use infod.Match.{deref, advance, cstr}
use infod.Rxbuf.{Rxbuf, Call, done, failed, clear, addc, zeropad}
use infod.Rxbuf
use infod.Proto.Base.{Callbacks, error_bad_msg, error_bad_arg}
use infod.Proto.Text.{Command, cmdtab, codes}
use infod.Proto.Text.Output.{Step, value, undefined}
use infod.Proto.Text.Decoder.{
  t_error, t_bol, t_argsp, t_str, t_qstr, Decoder, Turn, gives, again, aborts, enter, next, is_eol,
  find_word,
}
use infod.Proto.Text.Input.{
  reported, report, pass_line, after_input, end_of_line, add_nul, start_arg, skip_bar, on_argsp,
  look_up, on_cmd, on_bol, on_int, on_str, on_strbeg, on_qstr, on_qoct,
}
use infod.Proto.Text.Input.Weight.{
  HasShort, IsShort, Lowers, Lowers-if, advance_le, advance_lt, find_word-HasShort, or_fail-Lowers,
  weight,
}

module _ {W : Type 0} (can_alloc : ℕ → Bool) (cb : Callbacks W) where
  pub reported-Lowers :
      (n : ℕ) (s : Step W) (d : Decoder W) (k : Decoder W → Turn W)
      → ((w : W) → Lowers n (k (record d { world = w })))
      → Lowers n (reported can_alloc cb s d k)
  reported-Lowers n (value m o) d k f = f o.world
  reported-Lowers n undefined d k f = tt

  pub report-Lowers :
      (n code : ℕ) (text : List ℕ) (d : Decoder W) (k : Decoder W → Turn W)
      → ((w : W) → Lowers n (k (record d { world = w })))
      → Lowers n (report can_alloc cb code text d k)
  unfolding report
  report-Lowers n code text d k f = reported-Lowers n _ d k f

  pub report-error :
      (n code : ℕ) (text : List ℕ) (d : Decoder W)
      → 0 < n
      → IsShort d
      → Lowers n (report can_alloc cb code text d (λ e. again (enter t_error e)))
  report-error n code text d l h =
      report-Lowers n code text d (λ e. again (enter t_error e)) (λ w. (l, h))

  pub add_nul-Lowers :
      (n : ℕ) (c : Call) (d : Decoder W)
      → d.t.state ≡ t_argsp
      → 2 * length d.t.fmt + 1 < n
      → IsShort d
      → Lowers n (add_nul can_alloc cb c d)
  add_nul-Lowers n (done r) d e l h = (omega (arith, l, ap (λ s. weight s (length d.t.fmt)) e), h)
  add_nul-Lowers n (failed r) d e l h = (omega (arith, l), h)
  add_nul-Lowers n Rxbuf.aborted d e l h = tt

  pub start_arg-Lowers :
      (d : Decoder W)
      → d.t.state ≡ t_argsp
      → IsShort d
      → (deref d.t.fmt == 0) ≡ false
      → Lowers (2 * length d.t.fmt + 1) (start_arg can_alloc cb d)
  unfolding start_arg
  start_arg-Lowers d at h e =
      let n = 2 * length d.t.fmt + 1 in
      let less : length (advance d.t.fmt) + 1 ≡ length d.t.fmt = advance_lt d.t.fmt e in
      let d' = record d { t = record d.t { fmt = advance d.t.fmt } } in
      Lowers-if n (deref d.t.fmt == b'i') _ _ (λ _. (omega (arith, less), omega (arith, less, h)))
        (λ _.
          Lowers-if n (deref d.t.fmt == b't') _ _
            (λ _. (omega (arith, less), omega (arith, less, h)))
            (λ _.
              Lowers-if n (deref d.t.fmt == b'0') _ _
                (λ _.
                  add_nul-Lowers n (addc can_alloc d.rx 0) d' at (omega (arith, less))
                    (omega (arith, less, h)))
                (λ _. tt)))

  pub after_input-Lowers :
      (n : ℕ) (r : ℤ × W) (d : Decoder W) → IsShort d → Lowers n (after_input can_alloc cb r d)
  after_input-Lowers n (m, w) d h = Lowers-if n (is_positive m) _ _ (λ _. h) (λ _. h)

  pub pass_line-Lowers :
      (n : ℕ) (o : Option (ℕ → List ℕ → W → ℤ × W)) (d : Decoder W)
      → IsShort d
      → Lowers n (pass_line can_alloc cb o d)
  pass_line-Lowers n none d h = h
  pass_line-Lowers n (some f) d h =
      or_fail-Lowers n (zeropad can_alloc d.rx) d _ h
        (λ r. after_input-Lowers n _ (record d { rx = r }) h)

  pub end_of_line-Lowers :
      (n : ℕ) (d : Decoder W) → IsShort d → Lowers n (end_of_line can_alloc cb d)
  unfolding end_of_line
  end_of_line-Lowers n d h = pass_line-Lowers n cb.on_input d h

  pub skip_bar-fmt : (d : Decoder W) → length (skip_bar can_alloc cb d).t.fmt ≤ length d.t.fmt
  skip_bar-fmt d = elim (Bool-cases (deref d.t.fmt == b'|')) [
    | inl e ↦ rw e (advance_le d.t.fmt)
    | inr e ↦ rw e (omega arith)
  ]

  pub skip_bar-state : (d : Decoder W) → (skip_bar can_alloc cb d).t.state ≡ d.t.state
  skip_bar-state d = elim (Bool-cases (deref d.t.fmt == b'|')) [
    | inl e ↦ rw e refl
    | inr e ↦ rw e refl
  ]

  pub Lowers-le : (m n : ℕ) (t : Turn W) → m ≤ n → Lowers m t → Lowers n t
  Lowers-le m n (gives k d) l h = h
  Lowers-le m n (again d) l h = (omega (arith, l, h.0), h.1)
  Lowers-le m n aborts l h = tt

  pub on_argsp-Lowers :
      (ch : ℕ) (d : Decoder W)
      → d.t.state ≡ t_argsp
      → IsShort d
      → Lowers (2 * length d.t.fmt + 1) (on_argsp can_alloc cb ch d)
  unfolding on_argsp
  on_argsp-Lowers ch d at h =
      let n = 2 * length d.t.fmt + 1 in
      let d' = skip_bar can_alloc cb d in
      let short : length d'.t.fmt ≤ length d.t.fmt = skip_bar-fmt d in
      let s : IsShort d' = omega (arith, short, h) in
      Lowers-if n (ch == b' ') _ _ (λ _. h)
        (λ _.
          Lowers-if n (is_eol ch) _ _
            (λ _.
              Lowers-if n (not d'.t.optional && not (deref d'.t.fmt == 0)) _ _
                (λ _.
                  report-Lowers n error_bad_arg
                    (codes "missing arg for '" ++ cstr d'.t.cmd ++ codes "'") d'
                    (λ e. next (enter t_bol e)) (λ w. s))
                (λ _. end_of_line-Lowers n d' s))
            (λ _.
              Lowers-if n (deref d'.t.fmt == 0) _ _
                (λ _.
                  report-error n error_bad_arg
                    (codes "unexpected arg for '" ++ cstr d'.t.cmd ++ codes "'") d' (omega arith) s)
                (λ e.
                  Lowers-le (2 * length d'.t.fmt + 1) n _ (omega (arith, short))
                    (start_arg-Lowers d' (skip_bar-state d ∙ at) s e))))

  pub look_up-Lowers :
      (ch : ℕ) (d : Decoder W) (o : Option Command)
      → HasShort o
      → IsShort d
      → Lowers 10 (look_up can_alloc cb ch d o)
  unfolding look_up
  look_up-Lowers ch d none s h =
      report-error 10 error_bad_msg
        (codes "unknown command '" ++ cstr d.t.cmd ++ codes "', try 'help'") d (omega arith) h
  look_up-Lowers ch d (some c) s h = or_fail-Lowers 10 (clear can_alloc d.rx 1) d _ h (λ r.
      or_fail-Lowers 10 (addc can_alloc r c.id) (record d { rx = r }) _ h
        (λ r'. Lowers-le (2 * length c.fmt + 1) 10 _ (omega (arith, s)) (
          on_argsp-Lowers ch
            (record d {
              t = record d.t { fmt = c.fmt; optional = false; state = t_argsp };
              rx = r';
            })
            refl s)))

  pub cmdtab-short : All (λ c. length c.fmt ≤ 4) cmdtab
  cmdtab-short = ground arith

  pub on_cmd-Lowers : (ch : ℕ) (d : Decoder W) → IsShort d → Lowers 10 (on_cmd can_alloc cb ch d)
  unfolding on_cmd
  on_cmd-Lowers ch d h =
      Lowers-if 10 (ch == b' ' || is_eol ch) _ _
        (λ _.
          look_up-Lowers ch d (find_word (cstr d.t.cmd) cmdtab)
            (find_word-HasShort (cstr d.t.cmd) cmdtab cmdtab-short) h)
        (λ _.
          Lowers-if 10 (leb 16 (length (d.t.cmd ++ (ch ∷ [])))) _ _
            (λ _.
              report-error 10 error_bad_msg (codes "long command")
                (record d { t = record d.t { cmd = d.t.cmd ++ (ch ∷ []) } }) (omega arith) h)
            (λ _. h))

  pub on_bol-Lowers : (ch : ℕ) (d : Decoder W) → IsShort d → Lowers 10 (on_bol can_alloc cb ch d)
  unfolding on_bol
  on_bol-Lowers ch d h =
      Lowers-if 10 (ch == b' ' || is_eol ch) _ _ (λ _. h) (λ _. on_cmd-Lowers ch _ h)

  pub on_int-Lowers :
      (ch : ℕ) (d : Decoder W)
      → IsShort d
      → Lowers (2 * length d.t.fmt + 2) (on_int can_alloc cb ch d)
  unfolding on_int
  on_int-Lowers ch d h =
      let n = 2 * length d.t.fmt + 2 in
      let v = (d.t.intval * 10 + ch - b'0') % 2 ^ 16 in
      Lowers-if n (leb b'0' ch && leb ch b'9') _ _
        (λ _.
          Lowers-if n (ltb 255 v) _ _
            (λ _.
              report-error n error_bad_msg (codes "integer overflow")
                (record d { t = record d.t { intval = v } }) (omega arith) h)
            (λ _. h))
        (λ _.
          or_fail-Lowers n (addc can_alloc d.rx (d.t.intval % 256)) d _ h (λ r. (omega arith, h)))

  pub on_str-Lowers :
      (ch : ℕ) (d : Decoder W)
      → IsShort d
      → Lowers (2 * length d.t.fmt + 2) (on_str can_alloc cb ch d)
  unfolding on_str
  on_str-Lowers ch d h =
      let n = 2 * length d.t.fmt + 2 in
      elim (Bool-cases (deref d.t.fmt == 0)) [
        | inl e ↦ rw e (
            Lowers-if n (is_eol ch || (not true && (ch == b' '))) _ _ (λ _. (omega arith, h))
              (λ _. or_fail-Lowers n (addc can_alloc d.rx ch) d next h (λ r. h)))
        | inr e ↦ rw e (
            Lowers-if n (is_eol ch || (not false && (ch == b' '))) _ _ (λ _. (omega arith, h))
              (λ _. or_fail-Lowers n (addc can_alloc d.rx ch) d next h (λ r. h)))
      ]

  pub on_qstr-Lowers : (ch : ℕ) (d : Decoder W) → IsShort d → Lowers 1 (on_qstr can_alloc cb ch d)
  unfolding on_qstr
  on_qstr-Lowers ch d h =
      Lowers-if 1 (is_eol ch) _ _
        (λ _.
          report-Lowers 1 error_bad_msg (codes "unclosed \"") d (λ e. next (enter t_bol e))
            (λ w. h))
        (λ _.
          Lowers-if 1 (ch == b'\\') _ _ (λ _. h)
            (λ _.
              Lowers-if 1 (ch == b'"') _ _ (λ _. h)
                (λ _. or_fail-Lowers 1 (addc can_alloc d.rx ch) d next h (λ r. h))))

  pub on_qoct-Lowers : (ch : ℕ) (d : Decoder W) → IsShort d → Lowers 1 (on_qoct can_alloc cb ch d)
  unfolding on_qoct
  on_qoct-Lowers ch d h =
      let v = (d.t.intval * 8 + (ch - b'0')) % 2 ^ 16 in
      let d' = record d { t = record d.t { intval = v; counter = d.t.counter - 1 } } in
      Lowers-if 1 (ltb ch b'0' || ltb b'7' ch) _ _
        (λ _.
          report-error 1 error_bad_msg (codes "expected octal after backslash") d (omega arith) h)
        (λ _.
          Lowers-if 1 (d.t.counter - 1 == 0) _ _
            (λ _.
              or_fail-Lowers 1 (addc can_alloc d.rx (v % 256)) d' (λ e. next (enter t_qstr e)) h
                (λ r. h))
            (λ _. h))

  pub on_strbeg-Lowers :
      (ch : ℕ) (d : Decoder W)
      → IsShort d
      → Lowers (2 * length d.t.fmt + 2) (on_strbeg can_alloc cb ch d)
  unfolding on_strbeg
  on_strbeg-Lowers ch d h =
      Lowers-if (2 * length d.t.fmt + 2) (ch == b'"') _ _ (λ _. h)
        (λ _. on_str-Lowers ch (enter t_str d) h)

  pub on_bol-eol :
      (ch : ℕ) (d : Decoder W) → is_eol ch ≡ true → IsShort d → Lowers 0 (on_bol can_alloc cb ch d)
  unfolding on_bol
  on_bol-eol ch d e h =
      Lowers-if 0 (ch == b' ' || is_eol ch) _ _ (λ _. h) (λ f. absurd (ground (arith, e, f)))
