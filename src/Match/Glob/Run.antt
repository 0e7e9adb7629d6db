-- ===== src/Match/Glob/Run.antt =====
-- The loop of do_match over the text of a pattern inside a group is `walk`.
use infod.Prelude.{
  ℕ, zero, suc, ◌+◌, ◌<◌, ◌≡◌, refl, ◌∙◌, ap, Bool, true, false, ◌&&◌, Option, none, List, [], ◌∷◌,
  arith, length, leb, ltb, ltb→lt,
}
use infod.Match.{
  at, Paren, open_step, bar_step, note_success, close_group, close_step, plain_step, resume, run,
  greedy_forward, star_step,
}
use infod.Match.Glob.{
  Glob, end, rest, lit, esc, until, any, star_any, group, Branches, one, or, print, print_branches,
  is_regular, is_proper, are_proper,
}
use infod.Match.Glob.Walk.{
  Place, compare_byte, compare_any, noted, resumed, walk, walk_branches, run-plain, run-regular,
  inside, char-inside, any-inside, star-regular, star-closes, closes, at_place, note-noted,
  close-resumed,
}

pub and-left : (a b : Bool) → (a && b) ≡ true → a ≡ true
and-left a b h = ground arith

pub and-right : (a b : Bool) → (a && b) ≡ true → b ≡ true
and-right a b h = ground arith

abbrev pub group_paren : List ℕ → Option (List ℕ) → Paren
group_paren start found = record { start = at start; failed = false; success = at_place found }

abbrev pub begin : List ℕ → Place
begin start = record { text = start; failed = false }

-- The place and the success at the end of a group that starts at `p`.
abbrev pub group_end : Branches → Place → Place × Option (List ℕ)
group_end a p = walk_branches a p.text (begin p.text) none

-- One element, where the rest of the pattern is `k`.
module _ (k : List ℕ) (p : Place) (q : Paren) (ps : List Paren) where
  run-lit :
      (c : ℕ)
      → is_regular c ≡ true
      → run (c ∷ k) (inside p q ps) ≡ run k (inside (compare_byte c p) q ps)
  run-lit c h = run-regular c k (inside p q ps) h ∙ char-inside c p q ps (run k)

  run-esc : (c : ℕ) → run (b'\\' ∷ c ∷ k) (inside p q ps) ≡ run k (inside (compare_byte c p) q ps)
  unfolding run
  run-esc c = char-inside c p q ps (run k)

  run-any : run (b'?' ∷ k) (inside p q ps) ≡ run k (inside (compare_any p) q ps)
  unfolding plain_step
  run-any = run-plain b'?' k (inside p q ps) refl ∙ any-inside b'?' p q ps (run k)

  run-rest :
      closes k ≡ true
      → run (b'*' ∷ k) (inside p q ps) ≡ run k (inside (record p { text = [] }) q ps)
  unfolding plain_step
  run-rest h =
      run-plain b'*' k (inside p q ps) refl
      ∙ ap (λ o. resume o (run k)) (star-closes k p.text (record q { failed = p.failed } ∷ ps) h)

  run-open :
      length ps + 1 < 4
      → run (b'(' ∷ k) (inside p q ps)
        ≡ run k (
            inside
              (begin p.text)
              (record { start = at p.text; failed = false; success = none })
              (record q { failed = p.failed } ∷ ps))
  unfolding plain_step open_step
  run-open h =
      let e : leb 4 (suc (length ps)) ≡ false = ground arith in
      run-plain b'(' k (inside p q ps) refl ∙ rw e refl

  run-close :
      run (b')' ∷ k) (inside p q ps)
      ≡ resume
          (close_group
            (at p.text)
            (note_success (at p.text) (record q { failed = p.failed })).success
            ps)
          (run k)
  unfolding plain_step close_step
  run-close = run-plain b')' k (inside p q ps) refl

  run-bar :
      (start : List ℕ) (found : Option (List ℕ))
      → run (b'|' ∷ k) (inside p (group_paren start found) ps)
        ≡ run k (
            inside
              (begin start)
              (record { start = at start; failed = false; success = at_place (noted p found) })
              ps)
  unfolding plain_step bar_step
  run-bar start found =
      run-plain b'|' k (inside p (group_paren start found) ps) refl
      ∙ rw (note-noted p found (at start)) refl

-- `*c`
run-until :
    (k : List ℕ) (p : Place) (q : Paren) (ps : List Paren) (c : ℕ)
    → is_regular c ≡ true
    → c < 128
    → run (b'*' ∷ c ∷ k) (inside p q ps)
      ≡ run k (
          inside
            (compare_byte c (record p { text = greedy_forward (length p.text) (c ∷ []) p.text }))
            q
            ps)
unfolding plain_step
run-until k p q ps c h l =
    run-plain b'*' (c ∷ k) (inside p q ps) refl
    ∙ ap (λ o. resume o (run (c ∷ k)))
        (star-regular c k p.text (record q { failed = p.failed } ∷ ps) h l)
    ∙ run-lit k (record p { text = greedy_forward (length p.text) (c ∷ []) p.text }) q ps c h

-- `*?`
run-star-any :
    (k : List ℕ) (p : Place) (q : Paren) (ps : List Paren)
    → run (b'*' ∷ b'?' ∷ k) (inside p q ps) ≡ run k (inside (compare_any p) q ps)
unfolding plain_step star_step
run-star-any k p q ps = run-plain b'*' (b'?' ∷ k) (inside p q ps) refl ∙ run-any k p q ps

mutual
  unfolding print walk is_proper

  pub run-walk :
      (g : Glob) (n : ℕ) (k : List ℕ) (p : Place) (q : Paren) (ps : List Paren)
      → is_proper n g ≡ true
      → length ps + n < 4
      → closes k ≡ true
      → run (print g k) (inside p q ps) ≡ run k (inside (walk g p) q ps)
  run-walk end n k p q ps h d e = refl
  run-walk rest n k p q ps h d e = run-rest k p q ps e
  run-walk (lit c g) n k p q ps h d e =
      run-lit (print g k) p q ps c (and-left _ _ h)
      ∙ run-walk g n k (compare_byte c p) q ps (and-right _ _ h) d e
  run-walk (esc c g) n k p q ps h d e =
      run-esc (print g k) p q ps c ∙ run-walk g n k (compare_byte c p) q ps (and-right _ _ h) d e
  run-walk (until c g) n k p q ps h d e =
      run-until (print g k) p q ps c (and-left _ _ h) (ltb→lt _ _ (and-left _ _ (and-right _ _ h)))
      ∙ run-walk g n k
          (compare_byte c (record p { text = greedy_forward (length p.text) (c ∷ []) p.text })) q ps
          (and-right _ _ (and-right _ _ h)) d e
  run-walk (any g) n k p q ps h d e =
      run-any (print g k) p q ps ∙ run-walk g n k (compare_any p) q ps h d e
  run-walk (star_any g) n k p q ps h d e =
      run-star-any (print g k) p q ps ∙ run-walk g n k (compare_any p) q ps h d e
  run-walk (group a g) zero k p q ps h d e = cc
  run-walk (group a g) (suc n) k p q ps h d e =
      run-open (print_branches a (b')' ∷ print g k)) p q ps (omega arith)
      ∙ run-branches a n (print g k) (begin p.text) p.text none
          (record q { failed = p.failed } ∷ ps)
          (and-left (are_proper n a) (is_proper (suc n) g) (and-right (ltb 0 (suc n)) _ h))
          (omega arith)
      ∙ close-resumed (group_end a p).0 (group_end a p).1 p.failed q ps (run (print g k))
      ∙ run-walk g (suc n) k (resumed (group_end a p).0 (group_end a p).1 p.failed) q ps
          (and-right (are_proper n a) (is_proper (suc n) g) (and-right (ltb 0 (suc n)) _ h)) d e

  pub run-branches :
      (a : Branches) (n : ℕ) (k : List ℕ) (p : Place) (start : List ℕ) (found : Option (List ℕ))
      (ps : List Paren)
      → are_proper n a ≡ true
      → length ps + n < 4
      → run (print_branches a (b')' ∷ k)) (inside p (group_paren start found) ps)
        ≡ resume
            (close_group
              (at (walk_branches a start p found).0.text)
              (at_place (walk_branches a start p found).1)
              ps)
            (run k)
  run-branches (one g) n k p start found ps h d =
      run-walk g n (b')' ∷ k) p (group_paren start found) ps h d refl
      ∙ run-close k (walk g p) (group_paren start found) ps
      ∙ rw (note-noted (walk g p) found (at start)) refl
  run-branches (or g a) n k p start found ps h d =
      run-walk g n (b'|' ∷ print_branches a (b')' ∷ k)) p (group_paren start found) ps
        (and-left _ _ h) d refl
      ∙ run-bar (print_branches a (b')' ∷ k)) (walk g p) (group_paren start found) ps start found
      ∙ run-branches a n k (begin start) start (noted (walk g p) found) ps (and-right _ _ h) d
