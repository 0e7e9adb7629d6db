-- ===== src/Proto/Binary/Feed/Round.antt =====
-- One round of recv_binary's loop: what is checked and handed over once its bytes have arrived.
use infod.Prelude.{
  ℕ, zero, suc, ◌+◌, ◌%◌, ◌≤◌, ◌<◌, ◌≡◌, refl, ap, inl, inr, ℤ, pos, negsuc, Bool, true, false,
  ◌&&◌, Option, none, some, List, [], arith, leb, leb→le, ◌==◌, length, take, drop, Bool-cases,
}
use mathlib.Core.Path.{subst}
use infod.Rxbuf.{Rxbuf, active}
use infod.Rxbuf.Bounds.{IsValid}
use infod.Rxbuf.Append.{length-active, zeropad-done, clear-done, zeropad-refuses}
use infod.Proto.Base.{Callbacks}
use infod.Proto.Binary.{
  byte_at, length_field, binary_pkt_len, Recv, next_packet, after_input, deliver, deliver_to,
  pass_up, check_packet,
}
use infod.Proto.Binary.Feed.{
  packet_size, hand_over, hand_to, call_up, after_callback, is_complete, settle, and_then, feed,
}
use infod.Proto.Binary.Feed.Bytes.{goal}
use infod.Proto.Binary.Feed.Buffer.{IsReady, binary_pkt_len-active, Matches, packet_args}

module _ {W : Type 0} (can_alloc : ℕ → Bool) (grants : (k : ℕ) → can_alloc k ≡ true)
    (cb : Callbacks W) (net : List ℕ) (least bound : ℕ) (κ : ℕ → Rxbuf → W → Recv W)
    (later : (ret : ℕ) (rx : Rxbuf) (w : W)
      → least ≤ ret
      → IsReady rx
      → Matches bound (κ ret rx w) (feed cb net (active rx) w)) where
  complete-eq :
      (rx : Rxbuf)
      → IsValid rx
      → (leb 3 rx.len && (rx.len == 3 + binary_pkt_len rx)) ≡ is_complete cb (active rx)
  unfolding is_complete
  complete-eq rx v = elim (Bool-cases (leb 3 rx.len)) [
    | inl e ↦ rw (binary_pkt_len-active rx v (leb→le 3 rx.len e)) (rw (length-active rx v) refl)
    | inr e ↦ rw (length-active rx v) (rw e refl)
  ]

  complete-size :
      (rx : Rxbuf)
      → IsValid rx
      → is_complete cb (active rx) ≡ true
      → rx.len ≡ packet_size (active rx)
  unfolding is_complete
  complete-size rx v e = ground (arith, length-active rx v)

  incomplete-size :
      (rx : Rxbuf)
      → IsValid rx
      → rx.len ≤ goal (active rx)
      → is_complete cb (active rx) ≡ false
      → length (active rx) < goal (active rx)
  unfolding is_complete
  incomplete-size rx v l e = ground (arith, length-active rx v)

  go_on :
      (ret : ℕ) (rx : Rxbuf) (w : W) (pending : List ℕ)
      → least ≤ ret
      → IsValid rx
      → active rx ≡ pending
      → length pending < goal pending
      → Matches bound (κ ret rx w) (feed cb net pending w)
  go_on ret rx w pending h v e l =
      subst (λ p. Matches bound (κ ret rx w) (feed cb net p w)) e (later ret rx w h (v, rw e l))

  next_packet-Matches :
      (ret : ℕ) (rx : Rxbuf) (w : W)
      → least ≤ ret
      → IsValid rx
      → Matches bound (next_packet can_alloc cb ret rx w κ) (feed cb net [] w)
  unfolding next_packet
  next_packet-Matches ret rx w h v =
      let (r, e, valid, none_left) = clear-done can_alloc grants rx 3 v (omega arith) in
      rw e (go_on ret r w [] h valid (ap (λ n. take n r.buf) none_left) (omega arith))

  after_input-Matches :
      (ret : ℕ) (res : ℤ × W) (rx : Rxbuf)
      → least ≤ ret
      → IsValid rx
      → Matches bound
          (after_input can_alloc cb ret res rx κ)
          (and_then cb (after_callback cb res) (feed cb net))
  unfolding after_input after_callback
  after_input-Matches ret (pos zero, w) rx h v = (refl, refl)
  after_input-Matches ret (pos (suc n), w) rx h v =
      next_packet-Matches (ret + suc n) rx w (omega arith) v
  after_input-Matches ret (negsuc n, w) rx h v = (refl, refl)

  pass_up-Matches :
      (ret : ℕ) (f : ℕ → List ℕ → W → ℤ × W) (rx : Rxbuf) (w : W)
      → least ≤ ret
      → IsValid rx
      → rx.len ≡ packet_size (active rx)
      → Matches bound
          (pass_up can_alloc cb f ret rx w κ)
          (and_then cb (call_up cb f (active rx) w) (feed cb net))
  unfolding pass_up call_up
  pass_up-Matches ret f rx w h v full = elim (Bool-cases (leb 0x10000 (length (active rx) + 1))) [
    | inl big ↦ rw big (
        rw
          (zeropad-refuses can_alloc rx
            (omega (arith, leb→le 0x10000 (length (active rx) + 1) big, length-active rx v)))
          (refl, refl))
    | inr small ↦
        let (r, e, pads) =
          zeropad-done can_alloc grants rx v (ground (arith, length-active rx v, small)) in
        let (msg, args) = packet_args rx r v pads.0 full in
        rw small (
          rw e (
            rw msg (
              rw args (
                after_input-Matches ret
                  (f (byte_at (active rx) 0 % 256)
                    (take (length_field (active rx)) (drop 3 (active rx))) w)
                  r h pads.0.0))))
  ]

  deliver_to-Matches :
      (o : Option (ℕ → List ℕ → W → ℤ × W)) (ret : ℕ) (rx : Rxbuf) (w : W)
      → least ≤ ret
      → IsValid rx
      → rx.len ≡ packet_size (active rx)
      → Matches bound
          (deliver_to can_alloc cb o ret rx w κ)
          (and_then cb (hand_to cb o (active rx) w) (feed cb net))
  deliver_to-Matches none ret rx w h v full = next_packet-Matches ret rx w h v
  deliver_to-Matches (some f) ret rx w h v full = pass_up-Matches ret f rx w h v full

  pub check_packet-Matches :
      (ret : ℕ) (rx : Rxbuf) (w : W)
      → least ≤ ret
      → IsValid rx
      → rx.len ≤ goal (active rx)
      → Matches bound
          (check_packet can_alloc cb ret rx w κ)
          (and_then cb (settle cb (active rx) w) (feed cb net))
  unfolding check_packet settle
  check_packet-Matches ret rx w h v l = elim (Bool-cases (is_complete cb (active rx))) [
    | inl e ↦ rw (complete-eq rx v) (
        rw e (
          unfold deliver hand_over in
          deliver_to-Matches cb.on_input ret rx w h v (complete-size rx v e)))
    | inr e ↦
        rw (complete-eq rx v)
          (rw e (go_on ret rx w (active rx) h v refl (incomplete-size rx v l e)))
  ]
