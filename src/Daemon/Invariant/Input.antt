-- ===== src/Daemon/Invariant/Input.antt =====
-- on_app_input() of daemon/infod.c keeps the clients' records well formed, and never aborts.
use infod.Prelude.{
  ℕ, suc, ◌+◌, ◌-◌, ◌%◌, ◌^◌, ◌<◌, ◌≡◌, refl, sym, ap, ◌≢◌, pos, Bool, true, false, not, List, [],
  ◌∷◌, ◌++◌, leb, ◌==◌, ==_iff, if◌then◌else◌, length, length-append, All-append, arith, Bool-cases,
  inl, inr,
}
use mathlib.Core.Path.{subst}
use infod.Proto.Base.{cmd_begin, cmd_commit, msg_eof}
use infod.Daemon.State.{Bufcmd, State, replied, max_bufcmds, set-same, set-id, with_client}
use infod.Daemon.Peer.{Peers}
use infod.Daemon.Store.{Stores}
use infod.Daemon.Handlers.{dispatch, on_begin}
use infod.Daemon.Input.{playback, append_command, buffer_command, input_within, on_app_input}
use infod.Daemon.Invariant.{HasSubs, Touches, Touches-if, Kept, dispatch-Kept}
use infod.Daemon.Invariant.Order.{IsHeld, IsClient, IsIdle, Carries, Touches-after, Touches-map}
use infod.Daemon.Invariant.Playback.{IsPlaying, kept_idle, playback-Carries}

module _ {S W : Type 0} (stores : Stores S) (peers : Peers W) (can_alloc : ℕ → Bool) where
  append_command-Carries :
      (fd : ℕ) (b : Bufcmd) (d : State S W)
      → IsHeld b
      → (d.clients fd).begins ≢ 0
      → IsClient (d.clients fd)
      → Touches d fd Carries (append_command stores peers can_alloc fd b d)
  unfolding append_command
  append_command-Carries fd b d hb busy h =
      let c = d.clients fd in
      let at_end : (c.bufcmd_tail == length c.bufcmds) ≡ true = ground (arith, h.tail busy) in
      rw at_end (
        record c { bufcmds = c.bufcmds ++ (b ∷ []); bufcmd_tail = c.bufcmd_tail + 1 },
        (refl, refl),
        (
          record {
            subs = record { counted = h.subs.counted; few = h.subs.few; valid = h.subs.valid };
            uncounted = h.uncounted;
            tail = λ n. omega (arith, length-append c.bufcmds (b ∷ []), h.tail busy);
            held = All-append IsHeld c.bufcmds (b ∷ []) h.held (hb, tt);
            word = h.word;
          },
          λ _ z. absurd (busy z),
        ),
      )

  -- COMMIT, with `left` BEGINs left.
  commit-Carries :
      (depth fd left : ℕ) (d : State S W)
      → left < 2 ^ 32
      → (d.clients fd).begins ≢ 0
      → IsClient (d.clients fd)
      → (let d' = with_client fd (record (d.clients fd) { begins = left }) d in
          Touches d fd Carries (
            if left == 0
            then playback stores peers can_alloc
                (length (d.clients fd).bufcmds)
                (input_within stores peers can_alloc (suc depth))
                fd
                d'
            else replied (pos 1) d'))
  commit-Carries depth fd left d small busy h =
      let a = record (d.clients fd) { begins = left } in
      let d' = with_client fd a d in
      let same : d'.clients fd ≡ a = set-same d.clients fd a in
      let subs : HasSubs a = record {
        counted = h.subs.counted;
        few = h.subs.few;
        valid = h.subs.valid;
      } in
      Touches-if d fd Carries (left == 0) _ _
        (λ zero_left.
          Touches-after d d' fd a Carries _ (refl, refl)
            (playback-Carries stores peers can_alloc (length (d.clients fd).bufcmds) depth fd d'
              (omega (arith, ap length (ap (λ x. x.bufcmds) same)))
              (subst IsPlaying (sym same) (record {
                subs = subs;
                uncounted = h.uncounted;
                closed = (==_iff left 0).0 zero_left;
                held = h.held;
              }))))
        (λ some_left. (
          a,
          (refl, refl),
          (
            record {
              subs = subs;
              uncounted = h.uncounted;
              tail = λ n. h.tail busy;
              held = h.held;
              word = small;
            },
            λ _ z. absurd (ground (arith, z, some_left)),
          ),
        ))

  buffer_command-Carries :
      (depth fd msg : ℕ) (body : List ℕ) (d : State S W)
      → (msg == msg_eof) ≡ false
      → (d.clients fd).begins ≢ 0
      → (d.clients fd).begins + 1 < 2 ^ 32
      → IsClient (d.clients fd)
      → Touches d fd Carries (
          buffer_command stores peers can_alloc
            (input_within stores peers can_alloc (suc depth))
            fd
            msg
            body
            d)
  unfolding buffer_command
  buffer_command-Carries depth fd msg body d ne busy room h =
      let c = d.clients fd in
      let idle : IsIdle c = λ z. absurd (busy z) in
      let branch = Touches-if d fd Carries in
      branch (msg == cmd_begin) _ _
        (λ e. (
          record c { begins = (c.begins + 1) % 2 ^ 32 },
          (refl, refl),
          (
            record {
              subs = record { counted = h.subs.counted; few = h.subs.few; valid = h.subs.valid };
              uncounted = h.uncounted;
              tail = λ n. h.tail busy;
              held = h.held;
              word = omega arith;
            },
            λ _ z. absurd (omega (arith, z, room)),
          ),
        ))
        (λ e.
          branch (msg == cmd_commit) _ _
            (λ f. commit-Carries depth fd ((c.begins + 2 ^ 32 - 1) % 2 ^ 32) d (omega arith) busy h)
            (λ f.
              branch (leb max_bufcmds c.nbufcmds) _ _
                (λ _. (c, (sym (set-id d.clients fd), refl), (h, λ _. idle)))
                (λ _.
                  branch (not (can_alloc (24 + length body + 1))) _ _
                    (λ _. (c, (sym (set-id d.clients fd), refl), (h, λ _. idle)))
                    (λ _.
                      append_command-Carries fd (record { msg = msg; body = body }) d (e, f, ne)
                        busy h))))

  begin-Carries :
      (fd : ℕ) (body : List ℕ) (d : State S W)
      → IsClient (d.clients fd)
      → length (d.clients fd).bufcmds ≡ 0
      → Touches d fd Carries (dispatch stores peers can_alloc fd cmd_begin body d)
  unfolding dispatch on_begin
  begin-Carries fd body d h none_held = (
    record (d.clients fd) { bufcmd_tail = 0; begins = 1 },
    (refl, refl),
    (
      record {
        subs = record { counted = h.subs.counted; few = h.subs.few; valid = h.subs.valid };
        uncounted = h.uncounted;
        tail = λ n. sym none_held;
        held = h.held;
        word = omega arith;
      },
      λ _ z. none_held,
    ),
  )

  dispatch-Carries :
      (fd msg : ℕ) (body : List ℕ) (d : State S W)
      → (d.clients fd).begins ≡ 0
      → IsClient (d.clients fd)
      → IsIdle (d.clients fd)
      → Touches d fd Carries (dispatch stores peers can_alloc fd msg body d)
  dispatch-Carries fd msg body d z h idle = elim (Bool-cases (msg == cmd_begin)) [
    | inl e ↦
        subst (λ m. Touches d fd Carries (dispatch stores peers can_alloc fd m body d))
          (sym ((==_iff msg cmd_begin).0 e)) (begin-Carries fd body d h (idle z))
    | inr e ↦
        Touches-map d fd (Kept (d.clients fd)) Carries
          (dispatch stores peers can_alloc fd msg body d)
          (λ n c k. kept_idle n (d.clients fd) c k.1 k.0 z h (idle z))
          (dispatch-Kept stores peers can_alloc fd msg body d e h.subs)
  ]

  -- A message of a client, whatever the store and the network do, never makes on_app_input() abort
  -- or run on, and changes the record of no other client. The client's record stays well formed: its
  -- subscriptions are counted, valid patterns, and at most seventeen; the tail pointer is right, and
  -- the buffer holds no BEGIN, no COMMIT and no end of file. If the call returns a positive number the
  -- buffer is empty again outside of BEGIN. The hypothesis is that fewer than 2^32 - 1 BEGINs are
  -- open.
  pub on_app_input-Carries :
      (fd msg : ℕ) (body : List ℕ) (d : State S W)
      → IsClient (d.clients fd)
      → IsIdle (d.clients fd)
      → (d.clients fd).begins + 1 < 2 ^ 32
      → Touches d fd Carries (on_app_input stores peers can_alloc fd msg body d)
  unfolding on_app_input input_within
  on_app_input-Carries fd msg body d h idle room =
      Touches-if d fd Carries (msg == msg_eof) _ _
        (λ _. (d.clients fd, (sym (set-id d.clients fd), refl), (h, λ _. idle)))
        (λ ne.
          Touches-if d fd Carries ((d.clients fd).begins == 0) _ _
            (λ e. dispatch-Carries fd msg body d ((==_iff _ 0).0 e) h idle)
            (λ e.
              buffer_command-Carries 0 fd msg body d ne (λ z. absurd (ground (arith, z, e))) room
                h))
