-- ===== src/Links/Chain/Append.antt =====
-- APPEND() of daemon/list.h.
use infod.Prelude.{ℕ, ◌≡◌, ◌≢◌, refl, sym, ◌∙◌, ap, false, List, [], ◌∷◌, ◌++◌, arith}
use mathlib.Core.Path.{subst}
use infod.Prelude.Ends.{done}
use infod.Links.{Slot, head, next_of, Memory, same_slot, set_link, set_prevp, link_append}
use infod.Links.Chain.{IsChain, IsOutside, IsDistinct, end_of, other_next, same_slot_refl}
use mathlib.Core.List.{append-nil}
use infod.Links.Chain.Remove.{IsApart, outside-IsApart, head-IsApart, apart_end, IsChain-rest}

abbrev appended : ℕ → Slot → Memory → Memory
appended p tail m = set_link (next_of p) 0 (set_prevp p tail (set_link tail p m))

appended-tail :
    (p : ℕ) (tail : Slot) (m : Memory)
    → same_slot tail (next_of p) ≡ false
    → (appended p tail m).link tail ≡ p
unfolding set_link set_prevp
appended-tail p tail m h = ground (arith, h, same_slot_refl tail)

appended-next : (p : ℕ) (tail : Slot) (m : Memory) → (appended p tail m).link (next_of p) ≡ 0
unfolding set_link set_prevp
appended-next p tail m = ground arith

appended_self : (p : ℕ) (tail : Slot) (m : Memory) → (appended p tail m).prevp p ≡ tail
unfolding set_link set_prevp
appended_self p tail m = ground arith

appended-link :
    (p : ℕ) (tail q : Slot) (m : Memory)
    → same_slot q tail ≡ false
    → same_slot q (next_of p) ≡ false
    → (appended p tail m).link q ≡ m.link q
unfolding set_link set_prevp
appended-link p tail q m h g = rw (g, h) refl

appended-prevp :
    (p y : ℕ) (tail : Slot) (m : Memory) → y ≢ p → (appended p tail m).prevp y ≡ m.prevp y
unfolding set_link set_prevp
appended-prevp p y tail m h = ground (arith, h)

append_within :
    (p : ℕ) (q : Slot) (xs : List ℕ) (m : Memory)
    → p ≢ 0
    → same_slot q (next_of p) ≡ false
    → same_slot (end_of q xs) (next_of p) ≡ false
    → IsApart q xs
    → IsOutside p xs
    → IsDistinct xs
    → IsChain m q xs
    → IsChain (appended p (end_of q xs) m) q (xs ++ p ∷ [])
append_within p q [] m z f e a o d h =
    (z, (appended-tail p q m e, (appended_self p q m, appended-next p q m)))
append_within p q (x ∷ xs) m z f e a o d h =
    let tail = end_of (next_of x) xs in
    (
      h.0,
      (
        appended-link p tail q m
              (apart_end q x xs [] (subst (λ l. IsApart q (x ∷ l)) (sym (append-nil xs)) a)) f
            ∙ h.1.0,
        (
          appended-prevp p x tail m o.0 ∙ h.1.1.0,
          append_within p (next_of x) xs m z (other_next x p o.0) e (outside-IsApart x xs d.0) o.1
              d.1 h.1.1.1,
        ),
      ),
    )

end_other :
    (p : ℕ) (q : Slot) (xs : List ℕ)
    → same_slot q (next_of p) ≡ false
    → IsOutside p xs
    → same_slot (end_of q xs) (next_of p) ≡ false
end_other p q [] f o = f
end_other p q (x ∷ xs) f o = end_other p (next_of x) xs (other_next x p o.0) o.1

end_of-append : (q : Slot) (xs : List ℕ) (p : ℕ) → end_of q (xs ++ p ∷ []) ≡ next_of p
end_of-append q [] p = refl
end_of-append q (x ∷ xs) p = end_of-append (next_of x) xs p

-- APPEND() with the tail pointer at the end of the list does not abort, puts the element at the end, and
-- moves the tail pointer to the new end.
pub link_append-IsChain :
    (p k : ℕ) (xs : List ℕ) (m : Memory)
    → p ≢ 0
    → IsOutside p xs
    → IsDistinct xs
    → IsChain m (head k) xs
    → (m' : Memory) × (link_append p (end_of (head k) xs) m
        ≡ done (m', end_of (head k) (xs ++ p ∷ [])))
      × IsChain m' (head k) (xs ++ p ∷ [])
unfolding link_append
link_append-IsChain p k xs m z o d h =
    let tail = end_of (head k) xs in
    let free : m.link tail ≡ 0 =
      IsChain-rest m (head k) xs [] (subst (IsChain m (head k)) (sym (append-nil xs)) h) in
    (
      appended p tail m,
      rw free (ap (λ q. done (appended p tail m, q)) (sym (end_of-append (head k) xs p))),
      append_within p (head k) xs m z refl (end_other p (head k) xs refl o) (head-IsApart k xs) o d
          h,
    )
