-- ===== src/Daemon/Invariant.antt =====
-- The records that daemon/infod.c keeps of its clients stay well formed.
pub mod Order
pub mod Playback
pub mod Input
use infod.Prelude.{
  ℕ, zero, suc, ◌+◌, ◌-◌, ◌%◌, ◌^◌, ◌≤◌, ◌<◌, ◌≡◌, refl, sym, ◌∙◌, ap, ◌≢◌, ℤ, pos, negsuc,
  is_positive, is_failure, Bool, true, false, not, ◌&&◌, ◌||◌, Option, none, some, List, [], ◌∷◌,
  ◌++◌, ltb, leb, ◌==◌, if◌then◌else◌, length, length-append, All, arith, Bool-cases, inl, inr,
}
use infod.Match.{match_isvalid, match_result, match}
use infod.Proto.Base.{
  cmd_hello, cmd_sub, cmd_unsub, cmd_read, cmd_write, cmd_ping, cmd_begin, cmd_commit, msg_eof,
}
use infod.Proto.Text.{codes}
use infod.Daemon.State.{
  Client, Bufcmd, State, Reply, replied, aborted, spins, max_subs, set, set-same, set-set, set-id,
  with_client,
}
use infod.Daemon.Peer.{Peers}
use infod.Daemon.Store.{Stores}
use infod.Daemon.Handlers.{
  contains_nul, same_bytes, find_and_remove, send_matching, on_sub, on_unsub, on_read, on_write,
  on_begin, after_store, dispatch, found_entry, drop_sub, as_entry, is_ephemeral,
}

-- A pattern that a client may subscribe to.
abbrev pub IsPattern : List ℕ → Type 0
IsPattern p = (match_isvalid p ≡ true) × (contains_nul p ≡ false)

-- The subscriptions are counted, and there are at most seventeen.
pub record HasSubs (c : Client) : Type 0 where
  pub counted : c.nsubs ≡ length c.subs
  pub few : length c.subs ≤ max_subs + 1
  pub valid : All IsPattern c.subs

abbrev pub SameBuffer : Client → Client → Type 0
SameBuffer a b =
    (b.nbufcmds ≡ a.nbufcmds)
    × (b.begins ≡ a.begins)
    × (b.bufcmds ≡ a.bufcmds)
    × (b.bufcmd_tail ≡ a.bufcmd_tail)

module _ {S W : Type 0} where
  -- A client's record is replaced, and no client comes or goes.
  abbrev pub Replaces : State S W → ℕ → Client → State S W → Type 0
  Replaces d fd c d' = (d'.clients ≡ set d.clients fd c) × (d'.all_clients ≡ d.all_clients)

  -- The call returns, and has replaced at most the record of one client, by one with the property.
  abbrev pub Touches : State S W → ℕ → (ℤ → Client → Type 0) → Reply S W → Type 0
  Touches d fd P (replied n d') = (c : Client) × Replaces d fd c d' × P n c
  Touches d fd P aborted = ⊥
  Touches d fd P spins = ⊥

  pub Touches-if :
      (d : State S W) (fd : ℕ) (P : ℤ → Client → Type 0) (b : Bool) (r s : Reply S W)
      → (b ≡ true → Touches d fd P r)
      → (b ≡ false → Touches d fd P s)
      → Touches d fd P (if b then r else s)
  Touches-if d fd P true r s f g = f refl
  Touches-if d fd P false r s f g = g refl

  pub Touches-same :
      (d d' : State S W) (fd : ℕ) (P : ℤ → Client → Type 0) (n : ℤ)
      → d'.clients ≡ d.clients
      → d'.all_clients ≡ d.all_clients
      → P n (d.clients fd)
      → Touches d fd P (replied n d')
  Touches-same d d' fd P n e a h = (d.clients fd, (e ∙ sym (set-id d.clients fd), a), h)

-- What the handlers keep: the subscriptions are in order and the buffer is as it was.
abbrev pub Kept : Client → ℤ → Client → Type 0
Kept a n b = HasSubs b × SameBuffer a b

abbrev pub same_buffer : (c : Client) → SameBuffer c c
same_buffer c = (refl, refl, refl, refl)

abbrev IsRemoved : (List ℕ → Type 0) → List (List ℕ) → Option (List (List ℕ)) → Type 0
IsRemoved P subs none = Unit
IsRemoved P subs (some l) = All P l × (length subs ≡ length l + 1)

find_and_remove-IsRemoved :
    (P : List ℕ → Type 0) (pattern : List ℕ) (subs : List (List ℕ))
    → All P subs
    → IsRemoved P subs (find_and_remove pattern subs)
unfolding find_and_remove
find_and_remove-IsRemoved P pattern [] h = tt
find_and_remove-IsRemoved P pattern (s ∷ subs) h =
    at (length s == length pattern && same_bytes pattern s) (find_and_remove pattern subs)
      (find_and_remove-IsRemoved P pattern subs h.1)
  where
    at :
        (b : Bool) (o : Option (List (List ℕ)))
        → IsRemoved P subs o
        → IsRemoved P
            (s ∷ subs)
            (if b then some subs else elim o [ none ↦ none | some l ↦ some (s ∷ l) ])
    at true o r = (h.1, omega arith)
    at false none r = tt
    at false (some l) r = ((h.0, r.0), omega (arith, r.1))

module _ {S W : Type 0} (stores : Stores S) (peers : Peers W) (can_alloc : ℕ → Bool) where
  -- A handler that only talks to a client keeps its record.
  keep :
      (d : State S W) (fd : ℕ) (clients : ℕ → Client) (all : List ℕ)
      → clients ≡ d.clients
      → all ≡ d.all_clients
      → HasSubs (d.clients fd)
      → (c : Client) × ((clients ≡ set d.clients fd c) × (all ≡ d.all_clients))
        × (HasSubs c × SameBuffer (d.clients fd) c)
  keep d fd clients all e a h =
      (d.clients fd, (e ∙ sym (set-id d.clients fd), a), (h, same_buffer (d.clients fd)))

  on_sub-Kept :
      (fd : ℕ) (body : List ℕ) (d : State S W)
      → HasSubs (d.clients fd)
      → Touches d fd (Kept (d.clients fd)) (on_sub stores peers can_alloc fd body d)
  unfolding on_sub
  on_sub-Kept fd body d h =
      let c = d.clients fd in
      let same = keep d fd d.clients d.all_clients refl refl h in
      Touches-if d fd (Kept c) (ltb max_subs c.nsubs) _ _ (λ _. same)
        (λ few.
          Touches-if d fd (Kept c) (contains_nul body || not (match_isvalid body)) _ _ (λ _. same)
            (λ good.
              Touches-if d fd (Kept c) (not (can_alloc (24 + length body + 1))) _ _ (λ _. same)
                (λ _. (
                  record c { subs = body ∷ c.subs; nsubs = c.nsubs + 1 },
                  (refl, refl),
                  (
                    record {
                      counted = omega (arith, h.counted);
                      few = ground (arith, h.counted);
                      valid = ((ground arith, ground arith), h.valid);
                    },
                    same_buffer c,
                  ),
                ))))

  on_unsub-Kept :
      (fd : ℕ) (body : List ℕ) (d : State S W)
      → HasSubs (d.clients fd)
      → Touches d fd (Kept (d.clients fd)) (on_unsub stores peers can_alloc fd body d)
  unfolding on_unsub
  on_unsub-Kept fd body d h =
      on (find_and_remove body (d.clients fd).subs)
        (find_and_remove-IsRemoved IsPattern body (d.clients fd).subs h.valid)
    where
      on :
          (o : Option (List (List ℕ)))
          → IsRemoved IsPattern (d.clients fd).subs o
          → Touches d fd
              (Kept (d.clients fd))
              (drop_sub stores peers can_alloc fd (d.clients fd) d o)
      on none r = keep d fd d.clients d.all_clients refl refl h
      on (some l) r = (
        _,
        (refl, refl),
        (
          record {
            counted = omega (arith, r.1, h.counted, h.few);
            few = omega (arith, r.1, h.few);
            valid = r.0;
          },
          same_buffer (d.clients fd),
        ),
      )

  on_read-Kept :
      (fd : ℕ) (body : List ℕ) (d : State S W)
      → HasSubs (d.clients fd)
      → Touches d fd (Kept (d.clients fd)) (on_read stores peers can_alloc fd body d)
  unfolding on_read
  on_read-Kept fd body d h =
      let same = keep d fd d.clients d.all_clients refl refl h in
      Touches-if d fd (Kept (d.clients fd)) (contains_nul body) _ _ (λ _. same)
        (λ _. found (stores.store_get d.store body))
    where
      found :
          (o : Option (List ℕ))
          → Touches d fd (Kept (d.clients fd)) (found_entry stores peers can_alloc fd body d o)
      found none = keep d fd d.clients d.all_clients refl refl h
      found (some info) = keep d fd d.clients d.all_clients refl refl h

  after_store-Kept :
      (fd : ℕ) (what body : List ℕ) (n : ℤ) (d d' : State S W)
      → d'.clients ≡ d.clients
      → d'.all_clients ≡ d.all_clients
      → HasSubs (d.clients fd)
      → Touches d fd (Kept (d.clients fd)) (after_store stores peers can_alloc fd what body n d')
  unfolding after_store
  after_store-Kept fd what body (pos zero) d d' e a h = keep d fd d'.clients d'.all_clients e a h
  after_store-Kept fd what body (pos (suc n)) d d' e a h = keep d fd d'.clients d'.all_clients e a h
  after_store-Kept fd what body (negsuc zero) d d' e a h = keep d fd d'.clients d'.all_clients e a h
  after_store-Kept fd what body (negsuc (suc n)) d d' e a h =
      keep d fd d'.clients d'.all_clients e a h

  on_write-Kept :
      (fd : ℕ) (body : List ℕ) (d : State S W)
      → HasSubs (d.clients fd)
      → Touches d fd (Kept (d.clients fd)) (on_write stores peers can_alloc fd body d)
  unfolding on_write
  on_write-Kept fd body d h =
      Touches-if d fd (Kept (d.clients fd)) (not (contains_nul body)) _ _
        (λ _.
          after_store-Kept fd (codes "del: ") body (stores.store_del d.store body).0 d
            (record d { store = (stores.store_del d.store body).1 }) refl refl h)
        (λ _.
          Touches-if d fd (Kept (d.clients fd)) (is_ephemeral body) _ _
            (λ _. keep d fd d.clients d.all_clients refl refl h)
            (λ _.
              after_store-Kept fd (codes "write: ") body
                (stores.store_put d.store (as_entry stores peers can_alloc body)).0 d
                (record d {
                  store = (stores.store_put d.store (as_entry stores peers can_alloc body)).1;
                })
                refl refl h))

  -- Every command but BEGIN keeps the subscriptions in order and the buffer as it was.
  pub dispatch-Kept :
      (fd msg : ℕ) (body : List ℕ) (d : State S W)
      → (msg == cmd_begin) ≡ false
      → HasSubs (d.clients fd)
      → Touches d fd (Kept (d.clients fd)) (dispatch stores peers can_alloc fd msg body d)
  unfolding dispatch
  dispatch-Kept fd msg body d other h =
      let P = Kept (d.clients fd) in
      let same = keep d fd d.clients d.all_clients refl refl h in
      let branch = Touches-if d fd P in
      branch (msg == cmd_hello) _ _ (λ _. same)
        (λ _.
          branch (msg == cmd_sub) _ _ (λ _. on_sub-Kept fd body d h)
            (λ _.
              branch (msg == cmd_unsub) _ _ (λ _. on_unsub-Kept fd body d h)
                (λ _.
                  branch (msg == cmd_read) _ _ (λ _. on_read-Kept fd body d h)
                    (λ _.
                      branch (msg == cmd_write) _ _ (λ _. on_write-Kept fd body d h)
                        (λ _.
                          branch (msg == cmd_ping) _ _ (λ _. same)
                            (λ _.
                              branch (msg == cmd_begin) _ _ (λ e. absurd (ground (arith, e, other)))
                                (λ _. branch (msg == cmd_commit) _ _ (λ _. same) (λ _. same))))))))
