-- ===== src/Proto/Binary/Feed/Stream.antt =====
-- The binary mode as a whole: streams that are cut anywhere, and packets that come back.
use infod.Prelude.{
  ℕ, zero, suc, ◌+◌, ◌%◌, ◌≡◌, refl, sym, ◌∙◌, ap, ℤ, pos, negsuc, is_positive, Bool, true, false,
  Option, none, some, List, [], ◌∷◌, ◌++◌, arith, leb, length, take, drop, inl, inr, Bool-cases,
}
use mathlib.Core.Path.{subst}
use mathlib.Core.Bool.{false≢true}
use infod.Rxbuf.{Rxbuf, active}
use infod.Proto.Base.{Callbacks}
use infod.Proto.Binary.{byte_at, length_field, Recv, returned, aborted, spins, recv_binary}
use infod.Proto.Binary.Feed.{
  Fed, more, ended, hand_over, hand_to, call_up, after_callback, is_complete, settle, is_too_long,
  arrive, and_then, feed,
}
use infod.Proto.Binary.Feed.Buffer.{IsReady, Matches}
use infod.Proto.Binary.Feed.Loop.{recv_binary-Matches}

module _ {W : Type 0} (cb : Callbacks W) where
  and_then_assoc :
      (o : Fed W) (f g h : List ℕ → W → Fed W)
      → ((p : List ℕ) (w : W) → h p w ≡ and_then cb (f p w) g)
      → and_then cb o h ≡ and_then cb (and_then cb o f) g
  and_then_assoc (more p w) f g h e = e p w
  and_then_assoc (ended n w) f g h e = refl

  pub feed-append :
      (xs ys pending : List ℕ) (w : W)
      → feed cb (xs ++ ys) pending w ≡ and_then cb (feed cb xs pending w) (feed cb ys)
  unfolding feed
  feed-append [] ys pending w = refl
  feed-append (b ∷ xs) ys pending w =
      and_then_assoc (arrive cb pending b w) (feed cb xs) (feed cb ys) (feed cb (xs ++ ys))
        (λ p v. feed-append xs ys p v)

-- An end has a value that is not positive.
abbrev Closes : {W : Type 0} → Fed W → Type 0
Closes (more p w) = Unit
Closes (ended n w) = is_positive n ≡ false

module _ {W : Type 0} (cb : Callbacks W) where
  after_callback-Closes : (n : ℤ) (w : W) → Closes (after_callback cb (n, w))
  unfolding after_callback
  after_callback-Closes (pos zero) w = refl
  after_callback-Closes (pos (suc n)) w = tt
  after_callback-Closes (negsuc n) w = refl

  hand_to-Closes :
      (o : Option (ℕ → List ℕ → W → ℤ × W)) (p : List ℕ) (w : W) → Closes (hand_to cb o p w)
  unfolding call_up
  hand_to-Closes none p w = tt
  hand_to-Closes (some f) p w = elim (Bool-cases (leb 0x10000 (length p + 1))) [
    | inl e ↦ rw e refl
    | inr e ↦ rw e (
        let (n, v) = f (byte_at p 0 % 256) (take (length_field p) (drop 3 p)) w in
        after_callback-Closes n v)
  ]

  arrive-Closes : (p : List ℕ) (b : ℕ) (w : W) → Closes (arrive cb p b w)
  unfolding arrive settle hand_over
  arrive-Closes p b w = elim (Bool-cases (is_too_long cb p)) [
    | inl e ↦ rw e refl
    | inr e ↦ rw e (elim (Bool-cases (is_complete cb (p ++ (b ∷ [])))) [
      | inl c ↦ rw c (hand_to-Closes cb.on_input (p ++ (b ∷ [])) w)
      | inr c ↦ rw c tt
    ])
  ]

  and_then-Closes :
      (o : Fed W) (k : List ℕ → W → Fed W)
      → Closes o
      → ((p : List ℕ) (w : W) → Closes (k p w))
      → Closes (and_then cb o k)
  and_then-Closes (more p w) k h f = f p w
  and_then-Closes (ended n w) k h f = h

  feed-Closes : (net p : List ℕ) (w : W) → Closes (feed cb net p w)
  unfolding feed
  feed-Closes [] p w = tt
  feed-Closes (b ∷ net) p w =
      and_then-Closes (arrive cb p b w) (feed cb net) (arrive-Closes p b w) (feed-Closes net)

module _ {W : Type 0} (can_alloc : ℕ → Bool) (cb : Callbacks W) where
  -- The next call is made where the last one returned a positive value.
  abbrev pub then_recv : Recv W → (Rxbuf → W → Recv W) → Recv W
  then_recv (returned (pos zero) rx w) k = returned (pos zero) rx w
  then_recv (returned (pos (suc n)) rx w) k = k rx w
  then_recv (returned (negsuc n) rx w) k = returned (negsuc n) rx w
  then_recv aborted k = aborted
  then_recv spins k = spins

  -- One call for each piece that the network delivers; no piece is empty.
  unfoldable pub recv_pieces : List (ℕ × List ℕ) → Rxbuf → W → Recv W
  recv_pieces [] rx w = returned (pos 0) rx w
  recv_pieces ((b, net) ∷ l) rx w =
      then_recv (recv_binary can_alloc cb (b ∷ net) rx w) (recv_pieces l)

-- The bytes of all the pieces.
abbrev pub stream : List (ℕ × List ℕ) → List ℕ
stream [] = []
stream ((b, net) ∷ l) = b ∷ (net ++ stream l)

module _ {W : Type 0} (can_alloc : ℕ → Bool) (grants : (k : ℕ) → can_alloc k ≡ true)
    (cb : Callbacks W) where
  then_recv-Matches :
      (k : ℕ) (r : Recv W) (f : Fed W) (κ : Rxbuf → W → Recv W) (g : List ℕ → W → Fed W)
      → Matches (suc k) r f
      → Closes f
      → ((rx : Rxbuf) (w : W) → IsReady rx → Matches 0 (κ rx w) (g (active rx) w))
      → Matches 0 (then_recv can_alloc cb r κ) (and_then cb f g)
  then_recv-Matches k (returned (pos zero) rx v) (more p w) κ g (a, b, c, d) e h =
      absurd (omega arith)
  then_recv-Matches k (returned (pos (suc n)) rx v) (more p w) κ g (a, b, c, d) e h =
      subst (λ q. Matches 0 (κ rx v) (g q w)) b
        (subst (λ u. Matches 0 (κ rx v) (g (active rx) u)) c (h rx v a))
  then_recv-Matches k (returned (negsuc n) rx v) (more p w) κ g m e h = elim m [ ]
  then_recv-Matches k aborted (more p w) κ g m e h = elim m [ ]
  then_recv-Matches k spins (more p w) κ g m e h = elim m [ ]
  then_recv-Matches k (returned (pos zero) rx v) (ended n w) κ g m e h = m
  then_recv-Matches k (returned (pos (suc j)) rx v) (ended n w) κ g m e h =
      absurd (false≢true (sym e ∙ ap is_positive (sym m.0)))
  then_recv-Matches k (returned (negsuc j) rx v) (ended n w) κ g m e h = m
  then_recv-Matches k aborted (ended n w) κ g m e h = elim m [ ]
  then_recv-Matches k spins (ended n w) κ g m e h = elim m [ ]

  -- From a ready buffer, with every request for memory granted, calls of recv_binary() on the pieces
  -- of a stream, none of them empty, do what the byte-by-byte decoder `feed` does with the whole
  -- stream: the pieces' borders do not matter, the loop ends, and no assertion fails.
  pub recv_pieces-Matches :
      (l : List (ℕ × List ℕ)) (rx : Rxbuf) (w : W)
      → IsReady rx
      → Matches 0 (recv_pieces can_alloc cb l rx w) (feed cb (stream l) (active rx) w)
  unfolding recv_pieces
  recv_pieces-Matches [] rx w h = unfold feed in (h, refl, refl, omega arith)
  recv_pieces-Matches ((b, net) ∷ l) rx w h =
      rw (feed-append cb (b ∷ net) (stream l) (active rx) w) (
        then_recv-Matches (length net) (recv_binary can_alloc cb (b ∷ net) rx w)
          (feed cb (b ∷ net) (active rx) w) (recv_pieces can_alloc cb l) (feed cb (stream l))
          (recv_binary-Matches can_alloc grants cb b net rx w h)
          (feed-Closes cb (b ∷ net) (active rx) w)
          (λ rx' w' ready. recv_pieces-Matches l rx' w' ready))
