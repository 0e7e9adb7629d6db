-- ===== src/Match/Glob/Follow.antt =====
-- `walk` follows the meaning of a pattern: it fails exactly where nothing remains.
use infod.Prelude.{
  ℕ, ◌<◌, ◌≡◌, refl, ◌∙◌, ap, Bool, true, false, not, Option, none, some, List, [], ◌∷◌, arith,
  length, ltb, ◌==◌, ltb→lt, inl, inr, Bool-cases,
}
use Prim.Native.Nat.{pred}
use mathlib.Core.Path.{subst}
use infod.Match.{greedy_forward}
use infod.Match.Glob.{
  Glob, end, rest, lit, esc, until, any, star_any, group, Branches, one, or, after, after_first,
  after_char, bind, or_else, remains, remains_branches, is_regular, is_proper, are_proper, HasNoNul,
}
use infod.Match.Glob.Forward.{from_first, greedy-eq-from_first, HasNoNul-utf8inc}
use infod.Match.Glob.Walk.{Place, compare_byte, compare_any, noted, resumed, walk, walk_branches}
use infod.Match.Glob.Run.{begin, group_end, and-left, and-right}

walk-dead : (g : Glob) (p : Place) → p.failed ≡ true → (walk g p).failed ≡ true
unfolding walk
walk-dead end p h = h
walk-dead rest p h = h
walk-dead (lit c g) p h = walk-dead g (compare_byte c p) (ground arith)
walk-dead (esc c g) p h = walk-dead g (compare_byte c p) (ground arith)
walk-dead (until c g) p h =
    walk-dead g
      (compare_byte c (record p { text = greedy_forward (length p.text) (c ∷ []) p.text }))
      (ground arith)
walk-dead (any g) p h = walk-dead g (compare_any p) (ground arith)
walk-dead (star_any g) p h = walk-dead g (compare_any p) (ground arith)
walk-dead (group a g) p h =
    walk-dead g (resumed (group_end a p).0 (group_end a p).1 p.failed) (ground arith)

abbrev pub Follows : Place → Option (List ℕ) → Type 0
Follows p none = p.failed ≡ true
Follows p (some s) = (p ≡ begin s) × HasNoNul s

then-Follows :
    (g : Glob) (p : Place) (o : Option (List ℕ))
    → Follows p o
    → ((s : List ℕ) → HasNoNul s → Follows (walk g (begin s)) (remains g s))
    → Follows (walk g p) (bind o (remains g))
then-Follows g p none f h = walk-dead g p f
then-Follows g p (some s) f h = rw f.0 (h s f.1)

pub byte-Follows :
    (c : ℕ) (s : List ℕ)
    → HasNoNul s
    → (c == 0) ≡ false
    → Follows (compare_byte c (begin s)) (after c s)
unfolding after
byte-Follows c [] h nz = ground arith
byte-Follows c (d ∷ s) h nz = elim (Bool-cases (d == c)) [
  | inl e ↦ rw e (refl, h.1)
  | inr e ↦ rw e refl
]

pub char-Follows : (s : List ℕ) → HasNoNul s → Follows (compare_any (begin s)) (after_char s)
unfolding after_char
char-Follows [] h = refl
char-Follows (d ∷ s) h =
    let e : (d == 0) ≡ false = ground (arith, h.0) in rw e (refl, HasNoNul-utf8inc d s h)

first-Follows :
    (c : ℕ) (s : List ℕ)
    → HasNoNul s
    → (c == 0) ≡ false
    → Follows (compare_byte c (begin (from_first c s))) (after_first c s)
unfolding after_first
first-Follows c [] h nz = ground arith
first-Follows c (d ∷ s) h nz = elim (Bool-cases (d == c)) [
  | inl e ↦ rw e (rw e (refl, h.1))
  | inr e ↦ rw e (first-Follows c s h.1 nz)
]

noted-Follows :
    (p : Place) (o found : Option (List ℕ)) → Follows p o → noted p found ≡ or_else found o
noted-Follows p o (some e) f = refl
noted-Follows p none none f = rw f refl
noted-Follows p (some s) none f = rw f.0 refl

resumed-Follows :
    (p : Place) (e o : Option (List ℕ))
    → e ≡ o
    → ((s : List ℕ) → o ≡ some s → HasNoNul s)
    → Follows (resumed p e false) o
resumed-Follows p e none eq h = rw eq refl
resumed-Follows p e (some s) eq h = rw eq (refl, h s refl)

or_else_assoc : (a b c : Option (List ℕ)) → or_else (or_else a b) c ≡ or_else a (or_else b c)
or_else_assoc none b c = refl
or_else_assoc (some s) b c = refl

pub Follows-HasNoNul :
    (p : Place) (o : Option (List ℕ)) (s : List ℕ) → Follows p o → o ≡ some s → HasNoNul s
Follows-HasNoNul p none s f e = cc
Follows-HasNoNul p (some t) s f e = let same : t ≡ s = cc in subst HasNoNul same f.1

pub regular-nonzero : (c : ℕ) → is_regular c ≡ true → (c == 0) ≡ false
unfolding is_regular
regular-nonzero c h = ground arith

pub not-true : (b : Bool) → not b ≡ true → b ≡ false
not-true b h = ground arith

pub until-Follows :
    (c : ℕ) (s : List ℕ)
    → HasNoNul s
    → is_regular c ≡ true
    → c < 128
    → Follows (compare_byte c (begin (greedy_forward (length s) (c ∷ []) s))) (after_first c s)
until-Follows c s nn r l =
    rw (greedy-eq-from_first (length s) c [] s l nn (omega arith))
      (first-Follows c s nn (regular-nonzero c r))

pub or_else-HasNoNul :
    (a b : Option (List ℕ)) (t : List ℕ)
    → ((s : List ℕ) → a ≡ some s → HasNoNul s)
    → ((s : List ℕ) → b ≡ some s → HasNoNul s)
    → or_else a b ≡ some t
    → HasNoNul t
or_else-HasNoNul none b t ha hb e = hb t e
or_else-HasNoNul (some s) b t ha hb e = ha t e

mutual
  unfolding walk remains is_proper

  pub walk-Follows :
      (g : Glob) (n : ℕ) (s : List ℕ)
      → is_proper n g ≡ true
      → HasNoNul s
      → Follows (walk g (begin s)) (remains g s)
  walk-Follows end n s h nn = (refl, nn)
  walk-Follows rest n s h nn = (refl, tt)
  walk-Follows (lit c g) n s h nn =
      then-Follows g _ (after c s) (byte-Follows c s nn (regular-nonzero c (and-left _ _ h)))
        (λ t. walk-Follows g n t (and-right _ _ h))
  walk-Follows (esc c g) n s h nn =
      then-Follows g _ (after c s) (byte-Follows c s nn (not-true _ (and-left _ _ h)))
        (λ t. walk-Follows g n t (and-right _ _ h))
  walk-Follows (until c g) n s h nn =
      then-Follows g _ (after_first c s)
        (until-Follows c s nn (and-left _ _ h) (ltb→lt _ _ (and-left _ _ (and-right _ _ h))))
        (λ t. walk-Follows g n t (and-right _ _ (and-right _ _ h)))
  walk-Follows (any g) n s h nn =
      then-Follows g _ (after_char s) (char-Follows s nn) (λ t. walk-Follows g n t h)
  walk-Follows (star_any g) n s h nn =
      then-Follows g _ (after_char s) (char-Follows s nn) (λ t. walk-Follows g n t h)
  walk-Follows (group a g) n s h nn =
      let inner = and-right (ltb 0 n) _ h in
      then-Follows g (resumed (group_end a (begin s)).0 (group_end a (begin s)).1 false)
        (remains_branches a s)
        (resumed-Follows (group_end a (begin s)).0 _ (remains_branches a s)
          (branches_follow a (pred n) s none (and-left _ _ inner) nn)
          (branches-HasNoNul a (pred n) s (and-left _ _ inner) nn))
        (λ t. walk-Follows g n t (and-right (are_proper (pred n) a) _ inner))

  -- The success noted at the end of a group.
  pub branches_follow :
      (a : Branches) (n : ℕ) (start : List ℕ) (found : Option (List ℕ))
      → are_proper n a ≡ true
      → HasNoNul start
      → (walk_branches a start (begin start) found).1 ≡ or_else found (remains_branches a start)
  branches_follow (one g) n start found h nn =
      noted-Follows _ (remains g start) found (walk-Follows g n start h nn)
  branches_follow (or g a) n start found h nn =
      branches_follow a n start (noted (walk g (begin start)) found) (and-right _ _ h) nn
      ∙ ap (λ o. or_else o (remains_branches a start))
          (noted-Follows _ (remains g start) found (walk-Follows g n start (and-left _ _ h) nn))
      ∙ or_else_assoc found (remains g start) (remains_branches a start)

  pub branches-HasNoNul :
      (a : Branches) (n : ℕ) (start : List ℕ)
      → are_proper n a ≡ true
      → HasNoNul start
      → (t : List ℕ) → remains_branches a start ≡ some t
      → HasNoNul t
  branches-HasNoNul (one g) n start h nn t e =
      Follows-HasNoNul (walk g (begin start)) (remains g start) t (walk-Follows g n start h nn) e
  branches-HasNoNul (or g a) n start h nn t e =
      or_else-HasNoNul (remains g start) (remains_branches a start) t
        (λ s.
          Follows-HasNoNul (walk g (begin start)) (remains g start) s
            (walk-Follows g n start (and-left _ _ h) nn))
        (branches-HasNoNul a n start (and-right _ _ h) nn) e
