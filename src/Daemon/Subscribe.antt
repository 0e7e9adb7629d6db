-- ===== src/Daemon/Subscribe.antt =====
-- Subscriptions in daemon/infod.c: who is told of a change, and UNSUB as the inverse of SUB.
use infod.Prelude.{
  ℕ, ◌+◌, ◌-◌, ◌%◌, ◌^◌, ◌≤◌, ◌≡◌, ◌≢◌, refl, sym, ◌∙◌, ap, ℤ, pos, negsuc, is_failure, Bool, true,
  false, some, List, [], ◌∷◌, ◌++◌, ltb, ◌==◌, if◌then◌else◌, length, All, arith, Bool-cases, inl,
  inr,
}
use mathlib.Core.Path.{subst}
use infod.Proto.Base.{msg_info}
use infod.Proto.Format.{int, ptr}
use infod.Match.{Verdict, pass, mismatch, invalid, match, match_result, is_pass}
use infod.Match.Valid.{match-ne-invalid}
use infod.Daemon.State.{
  Client, State, replied, max_subs, set, set-same, set-set, set-id, with_client,
}
use infod.Daemon.Peer.{Peers, sized_text}
use infod.Daemon.Store.{Stores}
use infod.Daemon.Handlers.{
  same_bytes, find_and_remove, send_matching, on_sub, on_unsub, inform, notify_client,
  notify_clients,
}
use infod.Daemon.Invariant.{IsPattern}

-- The client, once for each of its patterns that takes the key.
abbrev pub takers : ℕ → List (List ℕ) → List ℕ → List ℕ
takers fd [] body = []
takers fd (pattern ∷ subs) body =
    if is_pass (match pattern body) then fd ∷ takers fd subs body else takers fd subs body

abbrev pub audience : (ℕ → Client) → List ℕ → List ℕ → List ℕ
audience clients [] body = []
audience clients (fd ∷ l) body = takers fd (clients fd).subs body ++ audience clients l body

result-is_pass : (v : Verdict) → v ≢ invalid → match_result v ≡ is_pass v
unfolding match_result is_pass
result-is_pass pass h = refl
result-is_pass mismatch h = refl
result-is_pass invalid h = absurd (h refl)

-- The entries that the pattern takes.
abbrev pub matching : List ℕ → List (List ℕ) → List (List ℕ)
matching pattern [] = []
matching pattern (e ∷ l) =
    if is_pass (match pattern e) then e ∷ matching pattern l else matching pattern l

module _ {W : Type 0} (peers : Peers W) where
  abbrev pub message : ℕ → List ℕ → W → ℤ × W
  message fd body w =
      peers.proto_output fd msg_info sized_text (int (length body) ∷ ptr body ∷ []) w

  -- A client is told: the message is sent, or it cannot be and the client is shut down.
  pub data Told (fd : ℕ) (body : List ℕ) (w : W) : W → Type 0 where
    sent : {n : ℤ} {v : W} → message fd body w ≡ (n, v) → is_failure n ≡ false → Told fd body w v
    shut :
        {n : ℤ} {v : W}
        → message fd body w ≡ (n, v)
        → is_failure n ≡ true
        → Told fd body w (peers.shutdown_read fd v)

  -- The clients of a list are told, one after another.
  pub data Tells (body : List ℕ) : List ℕ → W → W → Type 0 where
    stop : {w : W} → Tells body [] w w
    next :
        {fd : ℕ} {l : List ℕ} {w v u : W}
        → Told fd body w v
        → Tells body l v u
        → Tells body (fd ∷ l) w u

  -- A client is sent entries, one after another, until one cannot be sent; with the result.
  pub data Sends (fd : ℕ) : List (List ℕ) → W → ℤ × W → Type 0 where
    stop : {w : W} → Sends fd [] w (pos 1, w)
    next :
        {e : List ℕ} {l : List (List ℕ)} {n : ℤ} {w v : W} {r : ℤ × W}
        → message fd e w ≡ (n, v)
        → is_failure n ≡ false
        → Sends fd l v r
        → Sends fd (e ∷ l) w r
    fails :
        {e : List ℕ} {l : List (List ℕ)} {n : ℤ} {w v : W}
        → message fd e w ≡ (n, v)
        → is_failure n ≡ true
        → Sends fd (e ∷ l) w (negsuc 0, v)

module _ {S W : Type 0} (stores : Stores S) (peers : Peers W) (can_alloc : ℕ → Bool) where
  inform-Told :
      (fd : ℕ) (body : List ℕ) (w : W)
      → Told peers fd body w (inform stores peers can_alloc fd body w)
  unfolding inform
  inform-Told fd body w = elim (Bool-cases (is_failure (message peers fd body w).0)) [
    | inl e ↦ rw e (shut refl e)
    | inr e ↦ rw e (sent refl e)
  ]

  send_matching-Sends :
      (fd : ℕ) (p : List ℕ) (l : List (List ℕ)) (w : W)
      → IsPattern p
      → Sends peers fd (matching p l) w (send_matching stores peers can_alloc fd p l w)
  unfolding send_matching
  send_matching-Sends fd p [] w h = stop
  send_matching-Sends fd p (e ∷ l) w h =
      rw (result-is_pass (match p e) (match-ne-invalid p e h.0))
        (elim (Bool-cases (is_pass (match p e))) [
          | inl y ↦ rw y (elim (Bool-cases (is_failure (message peers fd e w).0)) [
            | inl f ↦ rw f (fails refl f)
            | inr f ↦ rw f (next refl f (send_matching-Sends fd p l _ h))
          ])
          | inr y ↦ rw y (send_matching-Sends fd p l w h)
        ])

  abbrev pub inform_all : List ℕ → List ℕ → W → W
  inform_all [] body w = w
  inform_all (fd ∷ l) body w = inform_all l body (inform stores peers can_alloc fd body w)

  inform_all-append :
      (l m body : List ℕ) (w : W)
      → inform_all (l ++ m) body w ≡ inform_all m body (inform_all l body w)
  inform_all-append [] m body w = refl
  inform_all-append (fd ∷ l) m body w = inform_all-append l m body _

  notify_client-takers :
      (fd : ℕ) (subs : List (List ℕ)) (body : List ℕ) (w : W)
      → All IsPattern subs
      → notify_client stores peers can_alloc fd subs body w
        ≡ inform_all (takers fd subs body) body w
  unfolding notify_client
  notify_client-takers fd [] body w h = refl
  notify_client-takers fd (p ∷ subs) body w h =
      rw (result-is_pass (match p body) (match-ne-invalid p body h.0.0))
        (elim (Bool-cases (is_pass (match p body))) [
          | inl e ↦ rw e (notify_client-takers fd subs body _ h.1)
          | inr e ↦ rw e (notify_client-takers fd subs body w h.1)
        ])

  notify_clients-inform_all :
      (clients : ℕ → Client) (l body : List ℕ) (w : W)
      → ((fd : ℕ) → All IsPattern (clients fd).subs)
      → notify_clients stores peers can_alloc clients l body w
        ≡ inform_all (audience clients l body) body w
  unfolding notify_clients
  notify_clients-inform_all clients [] body w h = refl
  notify_clients-inform_all clients (fd ∷ l) body w h =
      notify_clients-inform_all clients l body _ h
      ∙ ap (inform_all (audience clients l body) body)
          (notify_client-takers fd (clients fd).subs body w (h fd))
      ∙ sym (inform_all-append (takers fd (clients fd).subs body) (audience clients l body) body w)

  inform_all-Tells : (l body : List ℕ) (w : W) → Tells peers body l w (inform_all l body w)
  inform_all-Tells [] body w = stop
  inform_all-Tells (fd ∷ l) body w = next (inform-Told fd body w) (inform_all-Tells l body _)

  -- Of a change every client is told, in the order of the list of clients, once for each of its
  -- subscriptions whose pattern takes the key, and no other is: it is sent the key and value, and if
  -- that fails it is shut down. The subscriptions are valid patterns.
  pub notify_clients-Tells :
      (clients : ℕ → Client) (l body : List ℕ) (w : W)
      → ((fd : ℕ) → All IsPattern (clients fd).subs)
      → Tells peers body
          (audience clients l body)
          w
          (notify_clients stores peers can_alloc clients l body w)
  notify_clients-Tells clients l body w h =
      subst (Tells peers body (audience clients l body) w)
        (sym (notify_clients-inform_all clients l body w h))
        (inform_all-Tells (audience clients l body) body w)

  same_bytes_refl : (s : List ℕ) → same_bytes s s ≡ true
  unfolding same_bytes
  same_bytes_refl [] = refl
  same_bytes_refl (c ∷ s) = ground (arith, same_bytes_refl s)

  find_and_remove-first :
      (p : List ℕ) (subs : List (List ℕ)) → find_and_remove p (p ∷ subs) ≡ some subs
  unfolding find_and_remove
  find_and_remove-first p subs =
      let e : (length p == length p) ≡ true = ground arith in rw e (rw (same_bytes_refl p) refl)

  -- SUB with a valid pattern, below the limit and with memory: the client is sent the entries that
  -- match, until one cannot be sent, and SUB returns 1, or -1 in that case; its new subscription comes
  -- first, and UNSUB with the pattern takes back just that subscription: all records and the store are
  -- as before.
  pub on_unsub-of_sub :
      (fd : ℕ) (p : List ℕ) (d : State S W)
      → (d.clients fd).nsubs ≤ max_subs
      → IsPattern p
      → can_alloc (24 + length p + 1) ≡ true
      → (let c = d.clients fd in
          let subscribed = λ (w : W).
            record (with_client fd (record c { subs = p ∷ c.subs; nsubs = c.nsubs + 1 }) d) {
              world = w;
            } in
          (r : ℤ × W) × Sends peers fd (matching p (stores.infos d.store)) d.world r
          × (on_sub stores peers can_alloc fd p d ≡ replied r.0 (subscribed r.1))
          × (on_unsub stores peers can_alloc fd p (subscribed r.1)
              ≡ replied (pos 1) (record d { world = r.1 })))
  unfolding on_sub on_unsub
  on_unsub-of_sub fd p d l h g =
      let c = d.clients fd in
      let a = record c { subs = p ∷ c.subs; nsubs = c.nsubs + 1 } in
      let sent = send_matching stores peers can_alloc fd p (stores.infos d.store) d.world in
      let told = sent.1 in
      let same_count : (c.nsubs + 1 + 2 ^ 32 - 1) % 2 ^ 32 ≡ c.nsubs = omega arith in
      let below : ltb max_subs c.nsubs ≡ false = ground arith in
      (
        sent,
        send_matching-Sends fd p (stores.infos d.store) d.world h,
        rw below (rw (h.1) (rw (h.0) (rw g refl))),
        rw (set-same d.clients fd a) (
            rw (find_and_remove-first p c.subs) (
              ap (λ k. replied (pos 1) (record d { clients = k; world = told }))
                (set-set d.clients fd a (record c { nsubs = (c.nsubs + 1 + 2 ^ 32 - 1) % 2 ^ 32 })
                  ∙ ap (λ n. set d.clients fd (record c { nsubs = n })) same_count
                  ∙ set-id d.clients fd))),
      )
