-- ===== src/Proto/Binary/Feed/Loop.antt =====
-- The loop of recv_binary does what the byte-by-byte decoder does.
use infod.Prelude.{
  ℕ, zero, suc, ◌+◌, ◌-◌, ◌≤◌, ◌<◌, ◌≡◌, refl, sym, ◌∙◌, ap, inl, inr, min, Bool, true, false, List,
  [], ◌∷◌, ◌++◌, arith, length, take, drop, length-take, length-drop, take-append-drop, Bool-cases,
}
use mathlib.Core.Path.{subst}
use infod.Rxbuf.{Rxbuf, active, resize, add}
use infod.Rxbuf.Bounds.{resize-refuses}
use infod.Rxbuf.Append.{length-active, resize-done, add-done}
use infod.Proto.Base.{Callbacks}
use infod.Proto.Binary.{
  Recv, or_fail, ignore, check_packet, target, lacking, recv_loop, recv_binary,
}
use infod.Proto.Binary.Feed.{settle, is_too_long, arrive, and_then, feed}
use infod.Proto.Binary.Feed.Bytes.{goal, feed-run}
use infod.Proto.Binary.Feed.Buffer.{
  IsReady, target-goal, lacking-goal, Matches, goal-append, Matches-le,
}
use infod.Proto.Binary.Feed.Round.{check_packet-Matches}

module _ {W : Type 0} (can_alloc : ℕ → Bool) (grants : (k : ℕ) → can_alloc k ≡ true)
    (cb : Callbacks W) where
  -- A packet of 2^16 bytes or more finds no buffer.
  too_long-Matches :
      (k : ℕ) (rx : Rxbuf) (b : ℕ) (net : List ℕ) (w : W) (κ : Rxbuf → Recv W)
      → IsReady rx
      → is_too_long cb (active rx) ≡ true
      → Matches k
          (or_fail can_alloc cb (resize can_alloc rx (target rx)) w κ)
          (feed cb (b ∷ net) (active rx) w)
  unfolding feed arrive
  too_long-Matches k rx b net w κ h e = rw e (
      rw
        (resize-refuses can_alloc rx (target rx)
          (unfold is_too_long in ground (arith, target-goal rx h.0)))
        (refl, refl))

  -- A round takes m + 1 bytes, which stay within the header or the packet.
  round-Matches :
      (fuel m b : ℕ) (net : List ℕ) (ret : ℕ) (rx : Rxbuf) (w : W) (k : ℕ)
      → IsReady rx
      → is_too_long cb (active rx) ≡ false
      → m ≤ length net
      → rx.len + suc m ≤ goal (active rx)
      → ((ret' : ℕ) (rx' : Rxbuf) (w' : W)
          → ret + suc m ≤ ret'
          → IsReady rx'
          → Matches k
              (recv_loop can_alloc cb fuel (drop m net) ret' rx' w')
              (feed cb (drop m net) (active rx') w'))
      → Matches k
          (or_fail can_alloc cb (resize can_alloc rx (target rx)) w (λ r.
            ignore can_alloc cb (add can_alloc r (b ∷ take m net)) (λ r'.
              check_packet can_alloc cb
                (ret + suc m)
                r'
                w
                (recv_loop can_alloc cb fuel (drop m net)))))
          (feed cb (b ∷ net) (active rx) w)
  round-Matches fuel m b net ret rx w k h e lm lg later =
      let fits : target rx < 0x10000 =
        unfold is_too_long in ground (arith, target-goal rx h.0, e) in
      let (r, er, same) =
        resize-done can_alloc grants rx (target rx) h.0 (omega (arith, target-goal rx h.0, lg))
          fits in
      let (v, l, a) = same in
      let run : length (b ∷ take m net) ≡ suc m = omega (arith, length-take m net, lm) in
      let (r', er', apps) =
        add-done can_alloc grants r (b ∷ take m net) v
          (omega (arith, target-goal rx h.0, fits, lg, run, l)) in
      let (v', l', a') = apps in
      let bytes : active r' ≡ active rx ++ (b ∷ take m net) =
        a' ∙ ap (λ q. q ++ (b ∷ take m net)) a in
      let fed : feed cb (b ∷ net) (active rx) w
          ≡ and_then cb (settle cb (active r') w) (feed cb (drop m net)) =
        ap (λ t. feed cb (b ∷ t) (active rx) w) (sym (take-append-drop m net))
        ∙ feed-run cb (active rx) b (take m net) (drop m net) w e
            (omega (arith, lg, length-active rx h.0, length-take m net))
        ∙ ap (λ t. and_then cb (settle cb t w) (feed cb (drop m net))) (sym bytes) in
      let room : r'.len ≤ goal (active r') =
        rw bytes (omega (arith, goal-append (active rx) (b ∷ take m net), lg, l', l, run)) in
      rw er (
        rw er' (
          subst (Matches k _) (sym fed) (
            check_packet-Matches can_alloc grants cb (drop m net) (ret + suc m) k
              (recv_loop can_alloc cb fuel (drop m net)) later (ret + suc m) r' w (omega arith) v'
              room)))

  recv_loop-Matches :
      (fuel : ℕ) (net : List ℕ) (ret : ℕ) (rx : Rxbuf) (w : W)
      → length net ≤ fuel
      → IsReady rx
      → Matches
          (ret + length net)
          (recv_loop can_alloc cb fuel net ret rx w)
          (feed cb net (active rx) w)
  unfolding recv_loop feed
  recv_loop-Matches fuel [] ret rx w l h = (h, refl, refl, omega arith)
  recv_loop-Matches zero (b ∷ net) ret rx w l h = elim l [ ]
  recv_loop-Matches (suc fuel) (b ∷ net) ret rx w l h =
      elim (Bool-cases (is_too_long cb (active rx))) [
        | inl e ↦ too_long-Matches _ rx b net w _ h e
        | inr e ↦
            let (reach, some_left) = lacking-goal rx h in
            let m = min (lacking rx) (length (b ∷ net)) - 1 in
            let n : min (lacking rx) (length (b ∷ net)) ≡ suc m = omega arith in
            rw n (
              round-Matches fuel m b net ret rx w (ret + length (b ∷ net)) h e (omega arith)
                (omega arith)
                (λ ret' rx' w' more_read ready.
                  Matches-le _ (ret' + length (drop m net)) _ _ (omega (arith, length-drop m net)) (
                    recv_loop-Matches fuel (drop m net) ret' rx' w'
                      (omega (arith, length-drop m net)) ready)))
      ]

-- recv_binary() from a buffer between two packets does what the decoder does byte by byte.
pub recv_binary-Matches :
    {W : Type 0} (can_alloc : ℕ → Bool)
    → ((k : ℕ) → can_alloc k ≡ true)
    → (cb : Callbacks W) (b : ℕ) (net : List ℕ) (rx : Rxbuf) (w : W) → IsReady rx
    → Matches
        (length (b ∷ net))
        (recv_binary can_alloc cb (b ∷ net) rx w)
        (feed cb (b ∷ net) (active rx) w)
unfolding recv_binary
recv_binary-Matches can_alloc grants cb b net rx w h =
    Matches-le _ _ _ _ (omega arith)
      (recv_loop-Matches can_alloc grants cb (length (b ∷ net)) (b ∷ net) 0 rx w (omega arith) h)
