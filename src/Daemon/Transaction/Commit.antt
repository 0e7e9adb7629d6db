-- ===== src/Daemon/Transaction/Commit.antt =====
-- A transaction as a whole: on_app_input() of daemon/infod.c from BEGIN to COMMIT.
use infod.Prelude.{
  ℕ, suc, ◌+◌, ◌≡◌, refl, sym, ◌∙◌, ap, pos, is_positive, Bool, true, false, List, [], ◌∷◌, ◌++◌,
  leb, ◌==◌, if◌then◌else◌, length, length-append, All, arith, Bool-cases, inl, inr,
}
use mathlib.Core.Path.{subst}
use mathlib.Core.List.{append_assoc, append-nil}
use infod.Proto.Base.{cmd_begin, cmd_commit}
use infod.Daemon.State.{
  Client, Bufcmd, State, Reply, replied, aborted, spins, max_bufcmds, set, set-same, set-set,
  with_client,
}
use infod.Daemon.Peer.{Peers}
use infod.Daemon.Store.{Stores}
use infod.Daemon.Handlers.{dispatch, on_begin}
use infod.Daemon.Input.{
  Call, and_on, playback, append_command, buffer_command, input_within, on_app_input,
}
use infod.Daemon.Invariant.{HasSubs, Touches, Kept, dispatch-Kept}
use infod.Daemon.Invariant.Order.{IsHeld, IsClient}
use infod.Daemon.Invariant.Playback.{playback-nil, playback-cons}
use infod.Daemon.Transaction.{holding, map_reply, dispatch-Mirrors}

module _ {S W : Type 0} (stores : Stores S) (peers : Peers W) (can_alloc : ℕ → Bool) (fd : ℕ) where
  abbrev input : Call S W
  input = on_app_input stores peers can_alloc

  -- Messages one after the other, until a call does not return a positive number.
  unfoldable pub inputs : List Bufcmd → State S W → Reply S W
  inputs [] d = replied (pos 1) d
  inputs (b ∷ l) d = and_on (input fd b.msg b.body d) (inputs l)

  -- The client in the midst of a transaction.
  abbrev pub waiting : List Bufcmd → State S W → State S W
  waiting l d =
      with_client fd (record (d.clients fd) { begins = 1; bufcmds = l; bufcmd_tail = length l }) d

  abbrev pub or_rest : ℕ → List Bufcmd → Reply S W → (State S W → Reply S W) → Reply S W
  or_rest t l (replied n d) k = if is_positive n then k d else replied n (holding fd l t d)
  or_rest t l aborted k = aborted
  or_rest t l spins k = spins

  -- Commands run one by one outside of BEGIN. The first that does not return a positive number ends
  -- this, and those behind it stay in the buffer.
  unfoldable pub perform : ℕ → List Bufcmd → State S W → Reply S W
  perform t [] d = replied (pos 1) (holding fd [] t d)
  perform t (b ∷ l) d = or_rest t l (input fd b.msg b.body d) (perform t l)

  input-dispatch :
      (depth : ℕ) (b : Bufcmd) (d : State S W)
      → IsHeld b
      → (d.clients fd).begins ≡ 0
      → input_within stores peers can_alloc (suc depth) fd b.msg b.body d
        ≡ dispatch stores peers can_alloc fd b.msg b.body d
  unfolding input_within
  input-dispatch depth b d (nb, nc, ne) z =
      let e : ((d.clients fd).begins == 0) ≡ true = ground (arith, z) in rw ne (rw e refl)

  held_at : (q : List Bufcmd) (t : ℕ) (d : State S W) → ((holding fd q t d).clients fd).bufcmds ≡ q
  held_at q t d =
      ap (λ c. c.bufcmds)
        (set-same d.clients fd (record (d.clients fd) { bufcmds = q; bufcmd_tail = t }))

  begins_at :
      (q : List Bufcmd) (t : ℕ) (d : State S W)
      → ((holding fd q t d).clients fd).begins ≡ (d.clients fd).begins
  begins_at q t d =
      ap (λ c. c.begins)
        (set-same d.clients fd (record (d.clients fd) { bufcmds = q; bufcmd_tail = t }))

  -- The record of a client, replaced twice.
  twice :
      (a : Client) (f : Client → Client) (d : State S W)
      → with_client fd (f ((with_client fd a d).clients fd)) (with_client fd a d)
        ≡ with_client fd (f a) d
  twice a f d =
      ap (λ k. record d { clients = k })
        (ap (λ c. set (set d.clients fd a) fd (f c)) (set-same d.clients fd a)
          ∙ set-set d.clients fd a (f a))

  and_on-rest :
      (t : ℕ) (l : List Bufcmd) (d : State S W) (r : Reply S W)
      → (d.clients fd).begins ≡ 0
      → Touches d fd (Kept (d.clients fd)) r
      → ((d' : State S W)
          → (d'.clients fd).begins ≡ 0
          → HasSubs (d'.clients fd)
          → playback stores peers can_alloc
              (length l)
              (input_within stores peers can_alloc 1)
              fd
              (holding fd l t d')
            ≡ perform t l d')
      → and_on
          (map_reply (holding fd l t) r)
          (playback stores peers can_alloc (length l) (input_within stores peers can_alloc 1) fd)
        ≡ or_rest t l r (perform t l)
  unfolding and_on
  and_on-rest t l d (replied n d') z (c, e, (h, s)) f = elim (Bool-cases (is_positive n)) [
    | inl p ↦
        (let at : d'.clients fd ≡ c = ap (λ k. k fd) e.0 ∙ set-same d.clients fd c in
          rw p (f d' (ap (λ x. x.begins) at ∙ s.1 ∙ z) (subst HasSubs (sym at) h)))
    | inr p ↦ rw p refl
  ]
  and_on-rest t l d aborted z h f = refl
  and_on-rest t l d spins z h f = refl

  playback-perform :
      (t : ℕ) (l : List Bufcmd) (d : State S W)
      → All IsHeld l
      → (d.clients fd).begins ≡ 0
      → HasSubs (d.clients fd)
      → playback stores peers can_alloc
          (length l)
          (input_within stores peers can_alloc 1)
          fd
          (holding fd l t d)
        ≡ perform t l d
  unfolding perform
  playback-perform t [] d h z s = playback-nil stores peers can_alloc 0 _ fd _ (held_at [] t d)
  playback-perform t (b ∷ l) d h z s =
      let first = input fd b.msg b.body in
      let loop =
        playback stores peers can_alloc (length l) (input_within stores peers can_alloc 1) fd in
      let next : first d ≡ dispatch stores peers can_alloc fd b.msg b.body d =
        unfold on_app_input in input-dispatch 1 b d h.0 z in
      playback-cons stores peers can_alloc (length l) _ fd (holding fd (b ∷ l) t d) b l
        (held_at (b ∷ l) t d)
      ∙ ap (λ d'. and_on (input_within stores peers can_alloc 1 fd b.msg b.body d') loop)
          (twice (record (d.clients fd) { bufcmds = b ∷ l; bufcmd_tail = t })
            (λ c. record c { bufcmds = l }) d)
      ∙ ap (λ r. and_on r loop)
          (input-dispatch 0 b (holding fd l t d) h.0 (begins_at l t d ∙ z)
            ∙ dispatch-Mirrors stores peers can_alloc fd l t b.msg b.body d h.0.0)
      ∙ and_on-rest t l d (dispatch stores peers can_alloc fd b.msg b.body d) z
          (dispatch-Kept stores peers can_alloc fd b.msg b.body d h.0.0 s)
          (λ d' z' s'. playback-perform t l d' h.1 z' s')
      ∙ ap (λ r. or_rest t l r (perform t l)) (sym next)

  commit-perform :
      (l : List Bufcmd) (body : List ℕ) (d : State S W)
      → All IsHeld l
      → (d.clients fd).begins ≡ 0
      → HasSubs (d.clients fd)
      → input fd cmd_commit body (waiting l d) ≡ perform (length l) l d
  unfolding on_app_input input_within buffer_command
  commit-perform l body d h z s =
      let a = record (d.clients fd) { begins = 1; bufcmds = l; bufcmd_tail = length l } in
      let at : (waiting l d).clients fd ≡ a = set-same d.clients fd a in
      rw at (
        ap (playback stores peers can_alloc (length l) (input_within stores peers can_alloc 1) fd) (
          ap (λ k. record d { clients = k })
            (set-set d.clients fd a (record a { begins = 0 })
              ∙ ap
                  (λ n.
                    set d.clients fd
                      (record (d.clients fd) { begins = n; bufcmds = l; bufcmd_tail = length l }))
                  (sym z)))
        ∙ playback-perform (length l) l d h z s)

  input-waits :
      (b : Bufcmd) (q : List Bufcmd) (d : State S W)
      → ((n : ℕ) → can_alloc n ≡ true)
      → IsHeld b
      → (d.clients fd).nbufcmds ≡ 0
      → input fd b.msg b.body (waiting q d) ≡ replied (pos 1) (waiting (q ++ (b ∷ [])) d)
  unfolding on_app_input input_within buffer_command append_command
  input-waits b q d grants (nb, nc, ne) u =
      let a = record (d.clients fd) { begins = 1; bufcmds = q; bufcmd_tail = length q } in
      let at : (waiting q d).clients fd ≡ a = set-same d.clients fd a in
      let granted : can_alloc (24 + length b.body + 1) ≡ true = grants _ in
      let empty_count : leb max_bufcmds (d.clients fd).nbufcmds ≡ false = ground (arith, u) in
      let at_end : (length q == length q) ≡ true = ground arith in
      rw at (
        rw ne (
          rw nb (
            rw nc (
              rw empty_count (
                rw granted (
                  rw at_end (
                    ap (λ k. replied (pos 1) (record d { clients = k }))
                      (set-set d.clients fd a
                          (record a { bufcmds = q ++ (b ∷ []); bufcmd_tail = length q + 1 })
                        ∙ ap
                            (λ n.
                              set d.clients fd
                                (record a { bufcmds = q ++ (b ∷ []); bufcmd_tail = n }))
                            (sym (length-append q (b ∷ [])))))))))))

  waits :
      (l q : List Bufcmd) (d : State S W)
      → ((n : ℕ) → can_alloc n ≡ true)
      → All IsHeld l
      → (d.clients fd).nbufcmds ≡ 0
      → inputs l (waiting q d) ≡ replied (pos 1) (waiting (q ++ l) d)
  unfolding inputs and_on
  waits [] q d grants h u = ap (λ x. replied (pos 1) (waiting x d)) (sym (append-nil q))
  waits (b ∷ l) q d grants h u =
      ap (λ r. and_on r (inputs l)) (input-waits b q d grants h.0 u)
      ∙ waits l (q ++ (b ∷ [])) d grants h.1 u
      ∙ ap (λ x. replied (pos 1) (waiting x d)) (append_assoc q (b ∷ []) l)

  begin-waits :
      (d : State S W) (body : List ℕ)
      → (d.clients fd).begins ≡ 0
      → (d.clients fd).bufcmds ≡ []
      → input fd cmd_begin body d ≡ replied (pos 1) (waiting [] d)
  unfolding on_app_input input_within dispatch on_begin
  begin-waits d body z e =
      let closed : ((d.clients fd).begins == 0) ≡ true = ground (arith, z) in
      rw closed (
        ap
          (λ q.
            replied (pos 1) (
              with_client fd (record (d.clients fd) { begins = 1; bufcmds = q; bufcmd_tail = 0 })
                d))
          e)

  -- Between BEGIN and COMMIT of a client that has its records in order and no BEGIN open, with memory
  -- granted, any number of commands other than BEGIN and COMMIT is held back: each call returns 1,
  -- and nothing but the client's record has changed, no store and no output. COMMIT then does what the
  -- commands do one by one outside of a BEGIN, in order, up to the first that does not return a
  -- positive number; those behind it stay in the buffer.
  pub transaction :
      (l : List Bufcmd) (start finish : List ℕ) (d : State S W)
      → ((n : ℕ) → can_alloc n ≡ true)
      → All IsHeld l
      → IsClient (d.clients fd)
      → (d.clients fd).begins ≡ 0
      → (d.clients fd).bufcmds ≡ []
      → (inputs (record { msg = cmd_begin; body = start } ∷ l) d ≡ replied (pos 1) (waiting l d))
        × (input fd cmd_commit finish (waiting l d) ≡ perform (length l) l d)
  unfolding inputs and_on
  transaction l start finish d grants h c z e = (
    ap (λ r. and_on r (inputs l)) (begin-waits d start z e) ∙ waits l [] d grants h c.uncounted,
    commit-perform l finish d h z c.subs,
  )
