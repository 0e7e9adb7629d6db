-- ===== src/Match/Glob.antt =====
-- The pattern language of PROTOCOL as a syntax with a meaning of its own, for daemon/match.c.
pub mod Forward
mod Walk
mod Run
mod Follow
pub mod Meaning
use infod.Prelude.{
  ℕ, zero, suc, ◌≤◌, ◌<◌, ◌≡◌, ◌≢◌, Bool, true, false, not, ◌&&◌, ◌||◌, Option, none, some, List,
  [], ◌∷◌, ltb, ◌==◌, if◌then◌else◌, All,
}
use Prim.Native.Nat.{pred}
use infod.Match.{deref, utf8inc}

mutual
  -- A sequence of elements. `rest` is a final `*`, `until c` is `*c`, and `star_any` is `*?`.
  pub data Glob : Type 0 where
    end rest : Glob
    lit esc until : ℕ → Glob → Glob
    any star_any : Glob → Glob
    group : Branches → Glob → Glob

  pub data Branches : Type 0 where
    one : Glob → Branches
    or : Glob → Branches → Branches

unfoldable mutual
  -- The text of a pattern, before the text `k`.
  pub print : Glob → List ℕ → List ℕ
  print end k = k
  print rest k = b'*' ∷ k
  print (lit c g) k = c ∷ print g k
  print (esc c g) k = b'\\' ∷ c ∷ print g k
  print (until c g) k = b'*' ∷ c ∷ print g k
  print (any g) k = b'?' ∷ print g k
  print (star_any g) k = b'*' ∷ b'?' ∷ print g k
  print (group a g) k = b'(' ∷ print_branches a (b')' ∷ print g k)

  pub print_branches : Branches → List ℕ → List ℕ
  print_branches (one g) k = print g k
  print_branches (or g a) k = print g (b'|' ∷ print_branches a k)

-- What follows the first `c`.
unfoldable pub after_first : ℕ → List ℕ → Option (List ℕ)
after_first c [] = none
after_first c (d ∷ s) = let later = after_first c s in if d == c then some s else later

-- What follows a first byte `c`.
unfoldable pub after : ℕ → List ℕ → Option (List ℕ)
after c [] = none
after c (d ∷ s) = if d == c then some s else none

-- What follows the first UTF-8 character.
unfoldable pub after_char : List ℕ → Option (List ℕ)
after_char [] = none
after_char (d ∷ s) = some (utf8inc (d ∷ s))

abbrev pub bind : Option (List ℕ) → (List ℕ → Option (List ℕ)) → Option (List ℕ)
bind none k = none
bind (some s) k = k s

abbrev pub or_else : Option (List ℕ) → Option (List ℕ) → Option (List ℕ)
or_else none o = o
or_else (some s) o = some s

unfoldable mutual
  -- What is left of a text behind the part that the pattern takes. A group takes its first branch
  -- that fits, and never goes back to another one.
  pub remains : Glob → List ℕ → Option (List ℕ)
  remains end s = some s
  remains rest s = some []
  remains (lit c g) s = bind (after c s) (remains g)
  remains (esc c g) s = bind (after c s) (remains g)
  remains (until c g) s = bind (after_first c s) (remains g)
  remains (any g) s = bind (after_char s) (remains g)
  remains (star_any g) s = bind (after_char s) (remains g)
  remains (group a g) s = bind (remains_branches a s) (remains g)

  pub remains_branches : Branches → List ℕ → Option (List ℕ)
  remains_branches (one g) s = remains g s
  remains_branches (or g a) s = or_else (remains g s) (remains_branches a s)

-- The pattern takes the whole text.
abbrev pub takes_all : Option (List ℕ) → Bool
takes_all none = false
takes_all (some []) = true
takes_all (some (_ ∷ _)) = false

unfoldable pub is_regular : ℕ → Bool
is_regular c =
    not (c == 0)
    && (not (c == b'*')
        && (not (c == b'(')
            && (not (c == b'|') && (not (c == b')') && (not (c == b'?') && not (c == b'\\'))))))

-- A plain byte is regular, one behind `*` is ASCII too, and one behind a backslash is not the NUL;
-- groups are nested at most `n` deep.
unfoldable mutual
  pub is_proper : ℕ → Glob → Bool
  is_proper n end = true
  is_proper n rest = true
  is_proper n (lit c g) = is_regular c && is_proper n g
  is_proper n (esc c g) = not (c == 0) && is_proper n g
  is_proper n (until c g) = is_regular c && (ltb c 128 && is_proper n g)
  is_proper n (any g) = is_proper n g
  is_proper n (star_any g) = is_proper n g
  is_proper n (group a g) = ltb 0 n && (are_proper (pred n) a && is_proper n g)

  pub are_proper : ℕ → Branches → Bool
  are_proper n (one g) = is_proper n g
  are_proper n (or g a) = is_proper n g && are_proper n a

-- A text with no NUL in it, as a C string is.
abbrev pub HasNoNul : List ℕ → Type 0
HasNoNul s = All (λ c. c ≢ 0) s
