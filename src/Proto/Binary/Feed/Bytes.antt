-- ===== src/Proto/Binary/Feed/Bytes.antt =====
-- Bytes that do not complete the header or the packet before the last of them can arrive at once.
use infod.Prelude.{
  ℕ, zero, suc, ◌+◌, ◌*◌, ◌%◌, ◌≤◌, ◌<◌, ◌≡◌, refl, ◌∙◌, ap, inl, inr, false, List, [], ◌∷◌, ◌++◌,
  arith, ltb, leb, leb→le, if◌then◌else◌, length, length-append, get_elem?, Bool-cases,
}
use mathlib.Core.List.{append_assoc}
use infod.Proto.Base.{Callbacks}
use mathlib.Core.Path.{ap₂}
use infod.Proto.Binary.{or_zero, byte_at, length_field}
use infod.Proto.Binary.Feed.{more, packet_size, is_complete, settle, is_too_long, and_then, feed}

get_elem?-append :
    (xs ys : List ℕ) (i : ℕ) → i < length xs → get_elem? (xs ++ ys) i ≡ get_elem? xs i
get_elem?-append [] ys i h = elim h [ ]
get_elem?-append (x ∷ xs) ys zero h = refl
get_elem?-append (x ∷ xs) ys (suc i) h = get_elem?-append xs ys i (omega arith)

pub byte_at-append : (xs ys : List ℕ) (i : ℕ) → i < length xs → byte_at (xs ++ ys) i ≡ byte_at xs i
byte_at-append xs ys i h = ap or_zero (get_elem?-append xs ys i h)

-- The length field stands in the first three bytes.
pub length_field-append :
    (xs ys : List ℕ) → 3 ≤ length xs → length_field (xs ++ ys) ≡ length_field xs
unfolding length_field
length_field-append xs ys h =
    ap₂ (λ a b. a % 256 * 256 + b % 256) (byte_at-append xs ys 1 (omega arith))
      (byte_at-append xs ys 2 (omega arith))

-- The size that the pending bytes grow to next.
abbrev pub goal : List ℕ → ℕ
goal pending = if ltb (length pending) 3 then 3 else packet_size pending

pub length-snoc : (xs : List ℕ) (b : ℕ) → length (xs ++ (b ∷ [])) ≡ length xs + 1
length-snoc xs b = length-append xs (b ∷ [])

module _ {W : Type 0} (cb : Callbacks W) where
  settle-incomplete :
      (pending : List ℕ) (b : ℕ) (w : W)
      → length pending + 1 < goal pending
      → settle cb (pending ++ (b ∷ [])) w ≡ more (pending ++ (b ∷ [])) w
  unfolding settle is_complete
  settle-incomplete pending b w h = elim (Bool-cases (leb 3 (length pending))) [
    | inl e ↦ ground (
      arith,
      length-snoc pending b,
      length_field-append pending (b ∷ []) (leb→le 3 (length pending) e),
    )
    | inr e ↦ ground (arith, length-snoc pending b)
  ]

  goal-snoc :
      (pending : List ℕ) (b : ℕ)
      → length pending + 1 < goal pending
      → goal (pending ++ (b ∷ [])) ≡ goal pending
  goal-snoc pending b h = elim (Bool-cases (leb 3 (length pending))) [
    | inl e ↦ ground (
      arith,
      length-snoc pending b,
      length_field-append pending (b ∷ []) (leb→le 3 (length pending) e),
    )
    | inr e ↦ ground (arith, length-snoc pending b)
  ]

  too_long-snoc :
      (pending : List ℕ) (b : ℕ)
      → length pending + 1 < goal pending
      → is_too_long cb pending ≡ false
      → is_too_long cb (pending ++ (b ∷ [])) ≡ false
  unfolding is_too_long
  too_long-snoc pending b h t = elim (Bool-cases (leb 3 (length pending))) [
    | inl e ↦ ground (
      arith,
      length-snoc pending b,
      length_field-append pending (b ∷ []) (leb→le 3 (length pending) e),
    )
    | inr e ↦ ground (arith, length-snoc pending b)
  ]

  -- A non-empty run of bytes within the goal.
  pub feed-run :
      (pending : List ℕ) (b : ℕ) (run net : List ℕ) (w : W)
      → is_too_long cb pending ≡ false
      → length pending + suc (length run) ≤ goal pending
      → feed cb (b ∷ (run ++ net)) pending w
        ≡ and_then cb (settle cb (pending ++ (b ∷ run)) w) (feed cb net)
  unfolding feed
  feed-run pending b [] net w t h = rw t refl
  feed-run pending b (c ∷ run) net w t h = rw t (
      rw (settle-incomplete pending b w (omega arith)) (
        feed-run (pending ++ (b ∷ [])) c run net w (too_long-snoc pending b (omega arith) t)
          (omega (arith, goal-snoc pending b (omega arith), length-snoc pending b))
        ∙ ap (λ l. and_then cb (settle cb l w) (feed cb net))
            (append_assoc pending (b ∷ []) (c ∷ run))))
