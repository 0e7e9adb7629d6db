-- ===== src/Links/Tests.antt =====
-- A list of three elements in the memory of daemon/list.h.
use infod.Prelude.{ℕ, ◌≡◌, ◌≢◌, refl, sym, [], ◌∷◌, arith}
use infod.Prelude.Ends.{done}
use infod.Links.{head, next_of, Memory, link_insert, link_remove, link_append}
use infod.Links.Chain.{IsChain, IsDistinct, link_insert-IsChain}
use infod.Links.Chain.Remove.{link_remove-IsChain}
use infod.Links.Chain.Append.{link_append-IsChain}

abbrev blank : Memory
blank = record { link = λ q. 0; prevp = λ p. head 0 }

distinct : (a b : ℕ) → a ≢ b → IsDistinct (a ∷ b ∷ [])
distinct a b h = (((λ e. h (sym e)), tt), (tt, tt))

pair : Memory
pair = link_insert 8 (head 1) (link_insert 5 (head 1) blank)

pair-IsChain : IsChain pair (head 1) (8 ∷ 5 ∷ [])
unfolding pair
pair-IsChain =
    link_insert-IsChain 8 1 (5 ∷ []) (link_insert 5 (head 1) blank) (λ e. absurd (omega (arith, e)))
      ((λ e. absurd (omega (arith, e))), tt) (tt, tt)
      (link_insert-IsChain 5 1 [] blank (λ e. absurd (omega (arith, e))) tt tt refl)

link_remove-IsChain_example : IsChain (link_remove 5 pair) (head 1) (8 ∷ [])
link_remove-IsChain_example =
    link_remove-IsChain 5 1 (8 ∷ []) [] pair (distinct 8 5 (λ e. absurd (omega (arith, e))))
      pair-IsChain

link_append-IsChain_example :
    (m : Memory) × (link_append 3 (next_of 5) pair ≡ done (m, next_of 3))
    × IsChain m (head 1) (8 ∷ 5 ∷ 3 ∷ [])
link_append-IsChain_example =
    link_append-IsChain 3 1 (8 ∷ 5 ∷ []) pair (λ e. absurd (omega (arith, e)))
      ((λ e. absurd (omega (arith, e))), ((λ e. absurd (omega (arith, e))), tt))
      (distinct 8 5 (λ e. absurd (omega (arith, e)))) pair-IsChain
