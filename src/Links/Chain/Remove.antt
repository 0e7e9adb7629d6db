-- ===== src/Links/Chain/Remove.antt =====
-- REMOVE() of daemon/list.h.
use infod.Prelude.{ℕ, ◌≡◌, ◌≢◌, refl, sym, ◌∙◌, ap, false, List, [], ◌∷◌, ◌++◌, All, arith}
use mathlib.Core.Path.{subst}
use infod.Links.{
  Slot, head, next_of, Memory, same_slot, set_link, set_prevp, fix_prevp, link_remove,
}
use infod.Links.Chain.{
  IsChain, IsOutside, IsDistinct, end_of, other_next, same_slot_refl, IsChain-frame, All-map,
}

link_remove-link :
    (p : ℕ) (q : Slot) (m : Memory)
    → same_slot q (m.prevp p) ≡ false
    → p ≢ m.link (next_of p)
    → (link_remove p m).link q ≡ m.link q
unfolding link_remove set_link set_prevp fix_prevp
link_remove-link p q m h n = ground (arith, h, n)

remove-here :
    (p : ℕ) (m : Memory)
    → p ≢ m.link (next_of p)
    → (link_remove p m).link (m.prevp p) ≡ m.link (next_of p)
unfolding link_remove set_link set_prevp fix_prevp
remove-here p m n = ground (arith, n, same_slot_refl (m.prevp p))

link_remove-prevp :
    (p y : ℕ) (m : Memory) → y ≢ m.link (next_of p) → (link_remove p m).prevp y ≡ m.prevp y
unfolding link_remove set_link set_prevp fix_prevp
link_remove-prevp p y m n = ground (arith, n)

link_remove-first :
    (p x : ℕ) (m : Memory) → m.link (next_of p) ≡ x → x ≢ 0 → (link_remove p m).prevp x ≡ m.prevp p
unfolding link_remove set_link set_prevp fix_prevp
link_remove-first p x m e n = ground (arith, e, n)

abbrev first : List ℕ → ℕ
first [] = 0
first (x ∷ xs) = x

pub link-first : (m : Memory) (q : Slot) (xs : List ℕ) → IsChain m q xs → m.link q ≡ first xs
link-first m q [] h = h
link-first m q (x ∷ xs) h = h.1.0

-- No element's `next` is the place q.
abbrev pub IsApart : Slot → List ℕ → Type 0
IsApart q xs = All (λ x. same_slot q (next_of x) ≡ false) xs

pub outside-IsApart : (x : ℕ) (xs : List ℕ) → IsOutside x xs → IsApart (next_of x) xs
outside-IsApart x xs h = All-map _ _ xs (λ y n. other_next x y (λ e. n (sym e))) h

pub head-IsApart : (k : ℕ) (xs : List ℕ) → IsApart (head k) xs
head-IsApart k [] = tt
head-IsApart k (x ∷ xs) = (refl, head-IsApart k xs)

pub same_slot_sym : (q r : Slot) → same_slot q r ≡ same_slot r q
same_slot_sym (head a) (head b) = ground arith
same_slot_sym (head a) (next_of b) = refl
same_slot_sym (next_of a) (head b) = refl
same_slot_sym (next_of a) (next_of b) = ground arith

pub apart_end :
    (q : Slot) (x : ℕ) (xs ys : List ℕ)
    → IsApart q (x ∷ (xs ++ ys))
    → same_slot q (end_of (next_of x) xs) ≡ false
apart_end q x [] ys h = h.0
apart_end q x (y ∷ xs) ys h = apart_end q y xs ys h.1

pub IsChain-rest :
    (m : Memory) (q : Slot) (xs ys : List ℕ) → IsChain m q (xs ++ ys) → IsChain m (end_of q xs) ys
IsChain-rest m q [] ys h = h
IsChain-rest m q (x ∷ xs) ys h = IsChain-rest m (next_of x) xs ys h.1.1.1

IsOutside-rest : (z : ℕ) (xs ys : List ℕ) → IsOutside z (xs ++ ys) → IsOutside z ys
IsOutside-rest z [] ys h = h
IsOutside-rest z (x ∷ xs) ys h = IsOutside-rest z xs ys h.1

IsDistinct-rest : (xs ys : List ℕ) → IsDistinct (xs ++ ys) → IsDistinct ys
IsDistinct-rest [] ys h = h
IsDistinct-rest (x ∷ xs) ys h = IsDistinct-rest xs ys h.1

first_outside : (z : ℕ) (xs : List ℕ) → z ≢ 0 → IsOutside z xs → z ≢ first xs
first_outside z [] n h = n
first_outside z (x ∷ xs) n h = λ e. h.0 (sym e)

-- The elements behind the removed one.
remove_frame :
    (p y : ℕ) (ys : List ℕ) (m : Memory)
    → p ≢ m.link (next_of p)
    → m.link (next_of p) ≡ y
    → IsApart (m.prevp p) ys
    → IsOutside y ys
    → All
        (λ x.
          ((link_remove p m).link (next_of x) ≡ m.link (next_of x))
          × ((link_remove p m).prevp x ≡ m.prevp x))
        ys
remove_frame p y [] m n e a o = tt
remove_frame p y (x ∷ ys) m n e a o = (
  (
    link_remove-link p (next_of x) m (same_slot_sym (next_of x) (m.prevp p) ∙ a.0) n,
    link_remove-prevp p x m (λ z. o.0 (z ∙ e)),
  ),
  remove_frame p y ys m n e a.1 o.1,
)

remove_first :
    (p : ℕ) (q : Slot) (ys : List ℕ) (m : Memory)
    → IsApart q ys
    → IsDistinct (p ∷ ys)
    → IsChain m q (p ∷ ys)
    → IsChain (link_remove p m) q ys
remove_first p q [] m a d h =
    let n : p ≢ m.link (next_of p) = λ e. h.0 (e ∙ h.1.1.1) in
    ap (link_remove p m).link (sym h.1.1.0) ∙ remove-here p m n ∙ h.1.1.1
remove_first p q (y ∷ ys) m a d h =
    let next = h.1.1.1 in
    let n : p ≢ m.link (next_of p) = λ e. d.0.0 (sym (e ∙ next.1.0)) in
    let a' : IsApart (m.prevp p) (y ∷ ys) = subst (λ r. IsApart r (y ∷ ys)) (sym h.1.1.0) a in
    (
      next.0,
      (
        ap (link_remove p m).link (sym h.1.1.0) ∙ remove-here p m n ∙ next.1.0,
        (
          link_remove-first p y m next.1.0 next.0 ∙ h.1.1.0,
          IsChain-frame m (link_remove p m) (next_of y) ys
              (link_remove-link p (next_of y) m (same_slot_sym (next_of y) (m.prevp p) ∙ a'.0) n)
              (remove_frame p y ys m n next.1.0 a'.1 d.1.0) next.1.1.1,
        ),
      ),
    )

remove_within :
    (p : ℕ) (q : Slot) (xs ys : List ℕ) (m : Memory)
    → IsApart q (xs ++ p ∷ ys)
    → IsDistinct (xs ++ p ∷ ys)
    → IsChain m q (xs ++ p ∷ ys)
    → IsChain (link_remove p m) q (xs ++ ys)
remove_within p q [] ys m a d h = remove_first p q ys m a.1 d h
remove_within p q (x ∷ xs) ys m a d h =
    let at = IsChain-rest m (next_of x) xs (p ∷ ys) h.1.1.1 in
    let own = IsDistinct-rest xs (p ∷ ys) d.1 in
    let next : m.link (next_of p) ≡ first ys = link-first m (next_of p) ys at.1.1.1 in
    let n : p ≢ m.link (next_of p) = λ e. first_outside p ys at.0 own.0 (e ∙ next) in
    let apart : same_slot q (m.prevp p) ≡ false =
      ap (same_slot q) at.1.1.0 ∙ apart_end q x xs (p ∷ ys) a in
    let x_other : x ≢ m.link (next_of p) =
      λ e. first_outside x ys h.0 (IsOutside-rest x xs (p ∷ ys) d.0).1 (e ∙ next) in
    (
      h.0,
      (
        link_remove-link p q m apart n ∙ h.1.0,
        (
          link_remove-prevp p x m x_other ∙ h.1.1.0,
          remove_within p (next_of x) xs ys m (outside-IsApart x (xs ++ p ∷ ys) d.0) d.1 h.1.1.1,
        ),
      ),
    )

-- REMOVE() of an element takes it out of the list, wherever it stands.
pub link_remove-IsChain :
    (p k : ℕ) (xs ys : List ℕ) (m : Memory)
    → IsDistinct (xs ++ p ∷ ys)
    → IsChain m (head k) (xs ++ p ∷ ys)
    → IsChain (link_remove p m) (head k) (xs ++ ys)
link_remove-IsChain p k xs ys m d h =
    remove_within p (head k) xs ys m (head-IsApart k (xs ++ p ∷ ys)) d h
