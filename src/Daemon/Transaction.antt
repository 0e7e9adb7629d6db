-- ===== src/Daemon/Transaction.antt =====
-- BEGIN and COMMIT of daemon/infod.c: the commands between them wait, and then run in order.
pub mod Commit
use infod.Prelude.{
  ℕ, zero, suc, ◌+◌, ◌-◌, ◌%◌, ◌^◌, ◌≤◌, ◌<◌, ◌≡◌, refl, sym, ◌∙◌, ap, ◌≢◌, ℤ, pos, negsuc,
  is_positive, Bool, true, false, not, ◌&&◌, ◌||◌, Option, none, some, List, [], ◌∷◌, ◌++◌, ltb,
  leb, ◌==◌, ==_iff, if◌then◌else◌, length, length-append, All, arith, Bool-cases, inl, inr,
}
use mathlib.Core.Path.{subst}
use infod.Match.{match, match_result, match_isvalid}
use infod.Proto.Base.{
  cmd_hello, cmd_sub, cmd_unsub, cmd_read, cmd_write, cmd_begin, cmd_commit, cmd_ping, msg_eof,
}
use infod.Proto.Text.{codes}
use infod.Daemon.State.{
  Client, Bufcmd, State, Reply, replied, aborted, spins, max_bufcmds, max_subs, set, set-same,
  set-set, set-id, with_client,
}
use infod.Daemon.Peer.{Peers}
use infod.Daemon.Store.{Stores}
use infod.Daemon.Handlers.{
  contains_nul, is_ephemeral, find_and_remove, send_matching, on_sub, on_unsub, on_read, on_write,
  after_store, notify_clients, notify_client, dispatch, drop_sub, found_entry, as_entry, inform,
}

-- The client's buffer and tail pointer replaced.
abbrev pub holding : {S W : Type 0} → ℕ → List Bufcmd → ℕ → State S W → State S W
holding fd q t d = with_client fd (record (d.clients fd) { bufcmds = q; bufcmd_tail = t }) d

abbrev pub map_reply : {S W : Type 0} → (State S W → State S W) → Reply S W → Reply S W
map_reply f (replied n d) = replied n (f d)
map_reply f aborted = aborted
map_reply f spins = spins

-- The same reply, in a state that differs in a buffer.
abbrev pub Mirrors : {S W : Type 0} → ℕ → List Bufcmd → ℕ → Reply S W → Reply S W → Type 0
Mirrors fd q t r' r = r' ≡ map_reply (holding fd q t) r

Mirrors-if :
    {S W : Type 0} (fd : ℕ) (q : List Bufcmd) (t : ℕ) (b : Bool) (x' x y' y : Reply S W)
    → Mirrors fd q t x' x
    → Mirrors fd q t y' y
    → Mirrors fd q t (if b then x' else y') (if b then x else y)
Mirrors-if fd q t true x' x y' y h g = h
Mirrors-if fd q t false x' x y' y h g = g

same_subs :
    (clients : ℕ → Client) (fd : ℕ) (q : List Bufcmd) (t i : ℕ)
    → (set clients fd (record (clients fd) { bufcmds = q; bufcmd_tail = t }) i).subs
      ≡ (clients i).subs
unfolding set
same_subs clients fd q t i = elim (Bool-cases (i == fd)) [
  | inl e ↦ rw e (ap (λ k. (clients k).subs) (sym ((==_iff i fd).0 e)))
  | inr e ↦ rw e refl
]

module _ {S W : Type 0} (stores : Stores S) (peers : Peers W) (can_alloc : ℕ → Bool) (fd : ℕ)
    (q : List Bufcmd) (t : ℕ) where
  abbrev held_client : State S W → Client
  held_client d = record (d.clients fd) { bufcmds = q; bufcmd_tail = t }

  with_client-holding :
      (c : Client) (d : State S W)
      → with_client fd (record c { bufcmds = q; bufcmd_tail = t }) (holding fd q t d)
        ≡ holding fd q t (with_client fd c d)
  with_client-holding c d =
      ap (λ k. record d { clients = k })
        (set-set d.clients fd (held_client d) (record c { bufcmds = q; bufcmd_tail = t })
          ∙ sym (set-set d.clients fd c (record c { bufcmds = q; bufcmd_tail = t }))
          ∙ ap (λ x. set (set d.clients fd c) fd (record x { bufcmds = q; bufcmd_tail = t }))
              (sym (set-same d.clients fd c)))

  notify-same :
      (clients : ℕ → Client) (l : List ℕ) (body : List ℕ) (w : W)
      → notify_clients stores peers can_alloc
          (set clients fd (record (clients fd) { bufcmds = q; bufcmd_tail = t }))
          l
          body
          w
        ≡ notify_clients stores peers can_alloc clients l body w
  unfolding notify_clients
  notify-same clients [] body w = refl
  notify-same clients (i ∷ l) body w =
      rw (same_subs clients fd q t i) (notify-same clients l body _)

  after_store-Mirrors :
      (what body : List ℕ) (n : ℤ) (d : State S W)
      → Mirrors fd q t
          (after_store stores peers can_alloc fd what body n (holding fd q t d))
          (after_store stores peers can_alloc fd what body n d)
  unfolding after_store
  after_store-Mirrors what body (pos zero) d = refl
  after_store-Mirrors what body (pos (suc n)) d =
      ap (λ w. replied (pos 1) (record (holding fd q t d) { world = w }))
        (notify-same d.clients d.all_clients body d.world)
  after_store-Mirrors what body (negsuc zero) d = refl
  after_store-Mirrors what body (negsuc (suc n)) d =
      ap (λ w. replied (pos 1) (record (holding fd q t d) { world = w }))
        (notify-same d.clients d.all_clients body d.world)

  on_write-Mirrors :
      (body : List ℕ) (d : State S W)
      → Mirrors fd q t
          (on_write stores peers can_alloc fd body (holding fd q t d))
          (on_write stores peers can_alloc fd body d)
  unfolding on_write
  on_write-Mirrors body d =
      Mirrors-if fd q t (not (contains_nul body)) _ _ _ _
        (after_store-Mirrors (codes "del: ") body (stores.store_del d.store body).0
          (record d { store = (stores.store_del d.store body).1 }))
        (Mirrors-if fd q t (is_ephemeral body) _ _ _ _
          (ap (λ w. replied (pos 1) (record (holding fd q t d) { world = w }))
            (notify-same d.clients d.all_clients body d.world))
          (let entry = as_entry stores peers can_alloc body in
            after_store-Mirrors (codes "write: ") body (stores.store_put d.store entry).0
              (record d { store = (stores.store_put d.store entry).1 })))

  on_sub-Mirrors :
      (body : List ℕ) (d : State S W)
      → Mirrors fd q t
          (on_sub stores peers can_alloc fd body (holding fd q t d))
          (on_sub stores peers can_alloc fd body d)
  unfolding on_sub
  on_sub-Mirrors body d = rw (set-same d.clients fd (held_client d)) (
      Mirrors-if fd q t (ltb max_subs (d.clients fd).nsubs) _ _ _ _ refl (
        Mirrors-if fd q t (contains_nul body || not (match_isvalid body)) _ _ _ _ refl (
          Mirrors-if fd q t (not (can_alloc (24 + length body + 1))) _ _ _ _ refl (
            let sent =
              send_matching stores peers can_alloc fd body (stores.infos d.store) d.world in
            ap (λ s. replied sent.0 (record s { world = sent.1 }))
              (with_client-holding
                (record (d.clients fd) {
                  subs = body ∷ (d.clients fd).subs;
                  nsubs = (d.clients fd).nsubs + 1;
                })
                d)))))

  drop_sub-Mirrors :
      (d : State S W) (o : Option (List (List ℕ)))
      → Mirrors fd q t
          (drop_sub stores peers can_alloc fd (held_client d) (holding fd q t d) o)
          (drop_sub stores peers can_alloc fd (d.clients fd) d o)
  drop_sub-Mirrors d none = refl
  drop_sub-Mirrors d (some l) = ap (replied (pos 1)) (
      with_client-holding
        (record (d.clients fd) { subs = l; nsubs = ((d.clients fd).nsubs + 2 ^ 32 - 1) % 2 ^ 32 })
        d)

  found_entry-Mirrors :
      (body : List ℕ) (d : State S W) (o : Option (List ℕ))
      → Mirrors fd q t
          (found_entry stores peers can_alloc fd body (holding fd q t d) o)
          (found_entry stores peers can_alloc fd body d o)
  found_entry-Mirrors body d none = refl
  found_entry-Mirrors body d (some info) = refl

  -- A command outside of BEGIN does not look at the buffer.
  pub dispatch-Mirrors :
      (msg : ℕ) (body : List ℕ) (d : State S W)
      → (msg == cmd_begin) ≡ false
      → Mirrors fd q t
          (dispatch stores peers can_alloc fd msg body (holding fd q t d))
          (dispatch stores peers can_alloc fd msg body d)
  unfolding dispatch on_unsub on_read
  dispatch-Mirrors msg body d other =
      let branch = Mirrors-if fd q t in
      branch (msg == cmd_hello) _ _ _ _ refl (
        branch (msg == cmd_sub) _ _ _ _ (on_sub-Mirrors body d) (
          branch (msg == cmd_unsub) _ _ _ _
            (rw (set-same d.clients fd (held_client d))
              (drop_sub-Mirrors d (find_and_remove body (d.clients fd).subs)))
            (branch (msg == cmd_read) _ _ _ _
              (branch (contains_nul body) _ _ _ _ refl
                (found_entry-Mirrors body d (stores.store_get d.store body)))
              (branch (msg == cmd_write) _ _ _ _ (on_write-Mirrors body d) (
                branch (msg == cmd_ping) _ _ _ _ refl
                  (rw other (branch (msg == cmd_commit) _ _ _ _ refl refl)))))))
