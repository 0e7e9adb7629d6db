-- ===== src/Links/Chain.antt =====
-- The macros of daemon/list.h on the list that a head leads to.
pub mod Remove
pub mod Append
use infod.Prelude.{
  ℕ, ◌≡◌, ◌≢◌, refl, sym, ◌∙◌, ap, Bool, true, false, List, [], ◌∷◌, ◌++◌, ◌==◌, if◌then◌else◌, All,
  arith, Bool-cases, inl, inr, ==_iff,
}
use mathlib.Core.Path.{subst}
use infod.Prelude.Ends.{Run, done}
use infod.Links.{
  Slot, head, next_of, Memory, same_slot, set_link, set_prevp, fix_prevp, link_insert, link_remove,
  link_append,
}

-- Every element's prevp leads to the pointer to it.
abbrev pub IsChain : Memory → Slot → List ℕ → Type 0
IsChain m q [] = m.link q ≡ 0
IsChain m q (x ∷ xs) = (x ≢ 0) × ((m.link q ≡ x) × ((m.prevp x ≡ q) × IsChain m (next_of x) xs))

abbrev pub IsOutside : ℕ → List ℕ → Type 0
IsOutside p xs = All (λ x. x ≢ p) xs

abbrev pub IsDistinct : List ℕ → Type 0
IsDistinct [] = Unit
IsDistinct (x ∷ xs) = IsOutside x xs × IsDistinct xs

-- The place of the NULL at the end.
abbrev pub end_of : Slot → List ℕ → Slot
end_of q [] = q
end_of q (x ∷ xs) = end_of (next_of x) xs

pub other_next : (x p : ℕ) → x ≢ p → same_slot (next_of x) (next_of p) ≡ false
other_next x p h = ground (arith, h)

same_next : (p : ℕ) → same_slot (next_of p) (next_of p) ≡ true
same_next p = ground arith

pub same_slot_refl : (q : Slot) → same_slot q q ≡ true
same_slot_refl (head a) = ground arith
same_slot_refl (next_of a) = ground arith

-- What is not written to stays.
pub IsChain-frame :
    (m m' : Memory) (q : Slot) (xs : List ℕ)
    → m'.link q ≡ m.link q
    → All (λ x. (m'.link (next_of x) ≡ m.link (next_of x)) × (m'.prevp x ≡ m.prevp x)) xs
    → IsChain m q xs
    → IsChain m' q xs
IsChain-frame m m' q [] l a h = l ∙ h
IsChain-frame m m' q (x ∷ xs) l a h =
    (h.0, (l ∙ h.1.0, (a.0.1 ∙ h.1.1.0, IsChain-frame m m' (next_of x) xs a.0.0 a.1 h.1.1.1)))

pub All-map : (P Q : ℕ → Type 0) (xs : List ℕ) → ((x : ℕ) → P x → Q x) → All P xs → All Q xs
All-map P Q [] f h = tt
All-map P Q (x ∷ xs) f h = (f x h.0, All-map P Q xs f h.1)

link_insert-head : (p k : ℕ) (m : Memory) → (link_insert p (head k) m).link (head k) ≡ p
unfolding link_insert set_link
link_insert-head p k m = ground arith

link_insert-next :
    (p k : ℕ) (m : Memory) → (link_insert p (head k) m).link (next_of p) ≡ m.link (head k)
unfolding link_insert set_link set_prevp fix_prevp
link_insert-next p k m = ground arith

link_insert-link :
    (p k y : ℕ) (m : Memory)
    → y ≢ p
    → (link_insert p (head k) m).link (next_of y) ≡ m.link (next_of y)
unfolding link_insert set_link set_prevp fix_prevp
link_insert-link p k y m h = ground (arith, h)

link_insert-first :
    (p k x : ℕ) (m : Memory)
    → m.link (head k) ≡ x
    → x ≢ 0
    → (link_insert p (head k) m).prevp x ≡ next_of p
unfolding link_insert set_link set_prevp fix_prevp
link_insert-first p k x m e h = ground (arith, e, h)

link_insert-prevp :
    (p k y : ℕ) (m : Memory)
    → y ≢ p
    → y ≢ m.link (head k)
    → (link_insert p (head k) m).prevp y ≡ m.prevp y
unfolding link_insert set_link set_prevp fix_prevp
link_insert-prevp p k y m h g = ground (arith, h, g)

link_insert_self :
    (p k : ℕ) (m : Memory) → p ≢ m.link (head k) → (link_insert p (head k) m).prevp p ≡ head k
unfolding link_insert set_link set_prevp fix_prevp
link_insert_self p k m h = ground (arith, h)

insert_frame :
    (p k : ℕ) (xs : List ℕ) (m : Memory)
    → IsOutside p xs
    → IsOutside (m.link (head k)) xs
    → All
        (λ x.
          ((link_insert p (head k) m).link (next_of x) ≡ m.link (next_of x))
          × ((link_insert p (head k) m).prevp x ≡ m.prevp x))
        xs
insert_frame p k [] m o f = tt
insert_frame p k (x ∷ xs) m o f = (
  (link_insert-link p k x m o.0, link_insert-prevp p k x m o.0 f.0),
  insert_frame p k xs m o.1 f.1,
)

insert_behind :
    (p k : ℕ) (xs : List ℕ) (m : Memory)
    → IsOutside p xs
    → IsDistinct xs
    → IsChain m (head k) xs
    → IsChain (link_insert p (head k) m) (next_of p) xs
insert_behind p k [] m o d h = link_insert-next p k m ∙ h
insert_behind p k (x ∷ xs) m o d h = (
  h.0,
  (
    link_insert-next p k m ∙ h.1.0,
    (
      link_insert-first p k x m h.1.0 h.0,
      IsChain-frame m (link_insert p (head k) m) (next_of x) xs (link_insert-link p k x m o.0)
          (insert_frame p k xs m o.1 (subst (λ f. IsOutside f xs) (sym h.1.0) d.0)) h.1.1.1,
    ),
  ),
)

first_other :
    (p k : ℕ) (xs : List ℕ) (m : Memory)
    → p ≢ 0
    → IsOutside p xs
    → IsChain m (head k) xs
    → p ≢ m.link (head k)
first_other p k [] m z o h e = z (e ∙ h)
first_other p k (x ∷ xs) m z o h e = o.0 (sym (e ∙ h.1.0))

-- INSERT() at a head puts the element before the list.
pub link_insert-IsChain :
    (p k : ℕ) (xs : List ℕ) (m : Memory)
    → p ≢ 0
    → IsOutside p xs
    → IsDistinct xs
    → IsChain m (head k) xs
    → IsChain (link_insert p (head k) m) (head k) (p ∷ xs)
link_insert-IsChain p k xs m z o d h = (
  z,
  (
    link_insert-head p k m,
    (link_insert_self p k m (first_other p k xs m z o h), insert_behind p k xs m o d h),
  ),
)
