-- ===== src/Proto/Text/Input/Weight.antt =====
-- How often recv_text_1ch() of lib/prototext.c may enter its switch again for a byte.
use infod.Prelude.{
  ℕ, ◌+◌, ◌*◌, ◌≤◌, ◌<◌, ◌≡◌, refl, Bool, true, false, Option, none, some, List, [], ◌∷◌, ◌==◌,
  if◌then◌else◌, length, All, arith, Bool-cases, inl, inr,
}
use infod.Match.{deref, advance}
use infod.Rxbuf.{Rxbuf, Call, done, failed, clear, addc, zeropad}
use infod.Rxbuf
use infod.Proto.Text.{Command}
use infod.Proto.Text.Decoder.{
  Tstate, t_error, t_bol, t_cmd, t_argsp, t_int, t_strbeg, t_str, t_qstr, t_qoct, Decoder, Turn,
  gives, again, aborts, or_fail, same_word, find_word,
}

-- An upper bound for the rounds of a byte, by the state and the elements left in the format.
abbrev pub weight : Tstate → ℕ → ℕ
weight t_error k = 0
weight t_bol k = 10
weight t_cmd k = 10
weight t_argsp k = 2 * k + 1
weight t_int k = 2 * k + 2
weight t_strbeg k = 2 * k + 2
weight t_str k = 2 * k + 2
weight t_qstr k = 1
weight t_qoct k = 1

abbrev pub IsShort : {W : Type 0} → Decoder W → Type 0
IsShort d = length d.t.fmt ≤ 4

abbrev pub rounds : {W : Type 0} → Decoder W → ℕ
rounds d = weight d.t.state (length d.t.fmt)

-- The switch is entered again only in a state that needs less than n rounds.
abbrev pub Lowers : {W : Type 0} → ℕ → Turn W → Type 0
Lowers n (gives m d) = IsShort d
Lowers n (again d) = (rounds d < n) × IsShort d
Lowers n aborts = Unit

pub Lowers-if :
    {W : Type 0} (n : ℕ) (b : Bool) (x y : Turn W)
    → (b ≡ true → Lowers n x)
    → (b ≡ false → Lowers n y)
    → Lowers n (if b then x else y)
Lowers-if n true x y f g = f refl
Lowers-if n false x y f g = g refl

pub or_fail-Lowers :
    {W : Type 0} (n : ℕ) (c : Call) (d : Decoder W) (k : Decoder W → Turn W)
    → IsShort d
    → ((r : Rxbuf) → Lowers n (k (record d { rx = r })))
    → Lowers n (or_fail c d k)
or_fail-Lowers n (done r) d k h f = f r
or_fail-Lowers n (failed r) d k h f = h
or_fail-Lowers n Rxbuf.aborted d k h f = tt

pub advance_le : (s : List ℕ) → length (advance s) ≤ length s
advance_le [] = omega arith
advance_le (c ∷ s) = omega arith

pub advance_lt : (s : List ℕ) → (deref s == 0) ≡ false → length (advance s) + 1 ≡ length s
advance_lt [] h = absurd (ground (arith, h))
advance_lt (c ∷ s) h = omega arith

abbrev pub HasShort : Option Command → Type 0
HasShort none = Unit
HasShort (some c) = length c.fmt ≤ 4

pub find_word-HasShort :
    (cmd : List ℕ) (l : List Command) → All (λ c. length c.fmt ≤ 4) l → HasShort (find_word cmd l)
unfolding find_word
find_word-HasShort cmd [] h = tt
find_word-HasShort cmd (c ∷ l) h = elim (Bool-cases (same_word c.word cmd)) [
  | inl e ↦ rw e h.0
  | inr e ↦ rw e (find_word-HasShort cmd l h.1)
]
