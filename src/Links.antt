-- ===== src/Links.antt =====
-- daemon/list.h: doubly-linked lists in the memory. A pointer to an element is a number, NULL is 0, and
-- a pointer to a pointer is a place: a head, or the `next` of an element.
pub mod Chain
mod Tests
use infod.Prelude.{ℕ, Bool, false, ◌==◌, if◌then◌else◌}
use infod.Prelude.Ends.{Run, done, aborted}

pub data Slot : Type 0 where
  head : ℕ → Slot
  next_of : ℕ → Slot

-- `link` is what stands at a place.
pub record Memory : Type 0 where
  pub link : Slot → ℕ
  pub prevp : ℕ → Slot

abbrev pub same_slot : Slot → Slot → Bool
same_slot (head a) (head b) = a == b
same_slot (next_of a) (next_of b) = a == b
same_slot _ _ = false

unfoldable pub set_link : Slot → ℕ → Memory → Memory
set_link q p m = record m { link = λ r. if same_slot r q then p else m.link r }

unfoldable pub set_prevp : ℕ → Slot → Memory → Memory
set_prevp p q m = record m { prevp = λ r. if r == p then q else m.prevp r }

-- `if (p) p->prevp = q;`
unfoldable pub fix_prevp : ℕ → Slot → Memory → Memory
unfolding set_prevp
fix_prevp p q m = if p == 0 then m else set_prevp p q m

unfoldable pub link_insert : ℕ → Slot → Memory → Memory
unfolding set_link set_prevp fix_prevp
link_insert p headp m =
    let m' = set_link (next_of p) (m.link headp) (set_prevp p headp m) in
    set_link headp p (fix_prevp (m'.link (next_of p)) (next_of p) m')

unfoldable pub link_remove : ℕ → Memory → Memory
unfolding set_link set_prevp fix_prevp
link_remove p m =
    let m' = fix_prevp (m.link (next_of p)) (m.prevp p) m in
    set_link (m'.prevp p) (m'.link (next_of p)) m'

-- The new tail pointer comes with the memory.
unfoldable pub link_append : ℕ → Slot → Memory → Run (Memory × Slot)
unfolding set_link set_prevp
link_append p tail m =
    if m.link tail == 0
    then done (set_link (next_of p) 0 (set_prevp p tail (set_link tail p m)), next_of p)
    else aborted
