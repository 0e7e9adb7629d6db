-- ===== src/Server/Accept.antt =====
-- server_add_socket(), server_add_fd() and server_accept() of daemon/server.c.
use infod.Prelude.{
  ℕ, suc, ◌+◌, ◌^◌, ◌≤◌, ◌<◌, ℤ, pos, negsuc, ◌≡◌, ◌⊎◌, refl, sym, Bool, true, false, not, ◌&&◌,
  Option, none, some, List, [], ◌∷◌, ◌++◌, map, ◌==◌, leb, if◌then◌else◌, length, arith, Bool-cases,
  inl, inr, ap, length-append, bit_and, ◌∙◌,
}
use mathlib.Core.Path.{subst}
use infod.Prelude.Ends.{done, ◌>>=◌}
use infod.Server.State.{
  Socket, Server, count, System, Context, with_sockets, set_world, close_failed, accept_failed,
  fresh_socket, o_nonblock,
}
use infod.Server.{
  on_error, round_up, server_resize, close_fd, append_socket, add_nonblock, hold_off,
  server_add_socket, call_on_accept, accepted, server_add_fd, after_accept, server_accept, as_int,
  listen_enable, server_listen_enable, assign, uint,
}
use infod.Server.Weigh.{length-map}
use infod.Server.Laws.{Upcalls, OnSome, IsSized}
use infod.Server.Resize.{server_resize-IsResized, round_up_mono}
use infod.Server.Close.{IsSame, close_fd-IsSame}

-- The listeners are disabled when the number of sockets is at the limit.
abbrev pub held_off : ℕ → List Socket → List Socket
held_off max es = if not (max == 0) && leb max (length es) then map (listen_enable false) es else es

pub length-held_off : (max : ℕ) (es : List Socket) → length (held_off max es) ≡ length es
length-held_off max es = elim (Bool-cases (not (max == 0) && leb max (length es))) [
  | inl e ↦ rw e (length-map (listen_enable false) es)
  | inr e ↦ rw e refl
]

pub length-assign :
    (fd client listener : ℕ) (es : List Socket) → length (assign fd client listener es) ≡ length es
unfolding assign
length-assign fd client listener [] = refl
length-assign fd client listener (e ∷ es) = elim (Bool-cases (e.fd == fd)) [
  | inl h ↦ rw h refl
  | inr h ↦ rw h (ap suc (length-assign fd client listener es))
]

as_int-pos : (n : ℕ) → n < 2 ^ 31 → as_int n ≡ pos n
unfolding as_int
as_int-pos n h = ground (arith, h)

module _ {W : Type 0} (os : System W) (context : Context W) (log : W → ℕ) (tally : ℕ → ℕ) where
  -- The list with a new socket for `fd` at its end.
  abbrev pub appended : ℕ → List Socket → List Socket
  appended fd es = held_off context.max_sockets (es ++ fresh_socket fd ∷ [])

  -- By the result of on_accept(), if there is one.
  abbrev pub IsAppended : ℕ → ℕ → List Socket → List Socket → Type 0
  IsAppended fd listener es es' =
      (es' ≡ appended fd es) ⊎ ((client : ℕ) × (es' ≡ assign fd client listener (appended fd es)))

  pub record IsAdded (fd listener : ℕ) (s : Server W) (r : Bool × Server W) : Type 0 where
    pub sockets :
        ((r.0 ≡ false) × (r.1.tables.sockets ≡ s.tables.sockets))
        ⊎ ((r.0 ≡ true) × IsAppended fd listener s.tables.sockets r.1.tables.sockets)
    pub sized : IsSized r.1.tables
    pub world : log r.1.world ≡ log s.world

  module _ (u : Upcalls os context log tally) where
    add_nonblock-log :
        (fd : ℕ) (o : Option ℕ) (w : W) → log (add_nonblock os context fd o w) ≡ log w
    add_nonblock-log fd none w = refl
    add_nonblock-log fd (some val) w = elim (Bool-cases (bit_and val o_nonblock == 0)) [
      | inl e ↦ rw e (u.setfl fd _ w)
      | inr e ↦ rw e refl
    ]

    hold_off-same :
        (s : Server W)
        → hold_off os context s ≡ with_sockets (held_off context.max_sockets s.tables.sockets) s
    unfolding server_listen_enable
    hold_off-same s =
        elim (Bool-cases (not (context.max_sockets == 0) && leb context.max_sockets (count s))) [
          | inl e ↦ rw e refl
          | inr e ↦ rw e refl
        ]

    append_socket_lem :
        (fd : ℕ) (s : Server W)
        → s.tables.nmax ≡ round_up (suc (count s))
        → s.tables.nmax ≤ s.tables.socket_cap
        → s.tables.nmax ≤ s.tables.pollfd_cap
        → ((append_socket os context fd s).tables.sockets ≡ appended fd s.tables.sockets)
          × IsSized (append_socket os context fd s).tables
          × (log (append_socket os context fd s).world ≡ log s.world)
    append_socket_lem fd s e c d =
        let t =
          with_sockets (s.tables.sockets ++ fresh_socket fd ∷ [])
            (set_world (add_nonblock os context fd (os.getfl fd s.world) s.world) s) in
        rw (hold_off-same t) (
          refl,
          record {
            nmax =
                e
                ∙ ap round_up (
                    omega (
                      arith,
                      length-held_off context.max_sockets
                          (s.tables.sockets ++ fresh_socket fd ∷ []),
                      length-append s.tables.sockets (fresh_socket fd ∷ []),
                    ));
            sockets = c;
            pollfds = d;
          },
          add_nonblock-log fd (os.getfl fd s.world) s.world,
        )

    abbrev outcome : ℕ → Server W → Bool × Server W → Bool → ℤ × Server W
    outcome fd s r grown =
        if grown then (as_int (count s), append_socket os context fd r.1) else (negsuc 0, r.1)

    -- There is a new socket, at the index returned, or the sockets are as they were.
    pub server_add_socket_lem :
        (fd : ℕ) (s : Server W)
        → IsSized s.tables
        → count s < 2 ^ 31
        → (r : ℤ × Server W) × (server_add_socket os context fd s ≡ done r)
          × (((r.0 ≡ negsuc 0) × (r.1.tables.sockets ≡ s.tables.sockets))
              ⊎ ((r.0 ≡ pos (count s)) × (r.1.tables.sockets ≡ appended fd s.tables.sockets)))
          × IsSized r.1.tables
          × (log r.1.world ≡ log s.world)
    unfolding server_add_socket
    server_add_socket_lem fd s h b =
        let n : uint (count s + 1) ≡ suc (count s) = omega (arith, b) in
        let (r, q, k) =
          server_resize-IsResized os context log tally u (suc (count s)) (count s) s h.nmax
            h.sockets h.pollfds (omega (arith, b)) (omega (arith, b)) (omega arith) in
        let run : server_add_socket os context fd s ≡ done (outcome fd s r r.0) =
          ap (λ m. server_resize os context m s >>= λ r. done (outcome fd s r r.0)) n
          ∙ ap (λ o. o >>= λ r. done (outcome fd s r r.0)) q in
        elim (Bool-cases r.0) [
          | inl e ↦
              let (sockets, sized, world) =
                append_socket_lem fd r.1
                  (k.on_success e ∙ ap (λ l. round_up (suc (length l))) (sym k.sockets))
                  k.socket_cap k.pollfd_cap in
              (
                (pos (count s), append_socket os context fd r.1),
                run
                    ∙ ap (λ t. done (outcome fd s r t)) e
                    ∙ ap (λ i. done (i, append_socket os context fd r.1)) (as_int-pos (count s) b),
                inr (refl, sockets ∙ ap (appended fd) k.sockets),
                sized,
                world ∙ k.world,
              )
          | inr e ↦ (
            (negsuc 0, r.1),
            run ∙ ap (λ t. done (outcome fd s r t)) e,
            inl (refl, k.sockets),
            record {
              nmax =
                  k.on_growth e (
                    subst (λ m. m ≤ round_up (suc (count s))) (sym h.nmax)
                      (round_up_mono (count s) (suc (count s)) (omega arith) (omega (arith, b))))
                  ∙ h.nmax
                  ∙ ap (λ l. round_up (length l)) (sym k.sockets);
              sockets = k.socket_cap;
              pollfds = k.pollfd_cap;
            },
            k.world,
          )
        ]

    call_on_accept_lem :
        (f : Option (ℕ → ℕ → Server W → ℕ × Server W)) (fd listener : ℕ) (es : List Socket)
        (s : Server W)
        → OnSome
            (λ g.
              (fd listener : ℕ) (s : Server W) → IsSame os context log tally s (g fd listener s).1)
            f
        → s.tables.sockets ≡ appended fd es
        → IsSized s.tables
        → IsAppended fd listener es (call_on_accept os context f fd listener s).tables.sockets
          × IsSized (call_on_accept os context f fd listener s).tables
          × (log (call_on_accept os context f fd listener s).world ≡ log s.world)
    call_on_accept_lem none fd listener es s h e k = (inl e, k, refl)
    call_on_accept_lem (some f) fd listener es s h e k =
        let r = f fd listener s in
        let same = (h fd listener s).0 in
        (
          inr (r.0, ap (assign fd r.0 listener) (ap (λ t. t.sockets) same ∙ e)),
          record {
            nmax =
                ap (λ t. t.nmax) same
                ∙ k.nmax
                ∙ ap round_up (
                    sym (
                      length-assign fd r.0 listener r.1.tables.sockets
                      ∙ ap (λ t. length t.sockets) same));
            sockets = subst (λ t. t.nmax ≤ t.socket_cap) (sym same) k.sockets;
            pollfds = subst (λ t. t.nmax ≤ t.pollfd_cap) (sym same) k.pollfds;
          },
          (h fd listener s).1,
        )

    -- server_add_fd() of an fd, in tables that fit fewer than 2^31 sockets, with callbacks that leave the
    -- tables alone: -1 and the sockets as they were, or 0 and one more.
    pub server_add_fd-IsAdded :
        (fd listener : ℕ) (s : Server W)
        → IsSized s.tables
        → count s < 2 ^ 31
        → (r : Bool × Server W) × (server_add_fd os context (some fd) listener s ≡ done r)
          × IsAdded fd listener s r
    unfolding server_add_fd
    server_add_fd-IsAdded fd listener s h b =
        let (r, q, c, sized, world) = server_add_socket_lem fd s h b in
        let run = ap (λ o. o >>= λ r. done (accepted os context fd listener r)) q in
        elim c [
          | inl (e, sockets) ↦ (
            (false, r.1),
            run ∙ ap (λ o. done (accepted os context fd listener (o, r.1))) e,
            record { sockets = inl (refl, sockets); sized = sized; world = world },
          )
          | inr (e, sockets) ↦
              let s' = call_on_accept os context context.on_accept fd listener r.1 in
              let (added, sized', world') =
                call_on_accept_lem context.on_accept fd listener s.tables.sockets r.1 u.on_accept
                  sockets sized in
              (
                (true, s'),
                run ∙ ap (λ o. done (accepted os context fd listener (o, r.1))) e,
                record { sockets = inr (refl, added); sized = sized'; world = world' ∙ world },
              )
        ]

    -- What server_accept() does to the list.
    abbrev pub IsAccepted : ℕ → List Socket → List Socket → Type 0
    IsAccepted listener es es' = (es' ≡ es) ⊎ ((fd : ℕ) × IsAppended fd listener es es')

    abbrev settle : ℕ → ℕ → Server W → Bool → Server W
    settle fd listener s added =
        if added then s else close_fd os context fd (close_failed listener fd) s

    after_accept-IsAccepted :
        (listener : ℕ) (o : Option ℕ) (s : Server W)
        → IsSized s.tables
        → count s < 2 ^ 31
        → (s' : Server W) × (after_accept os context listener o s ≡ done s')
          × IsAccepted listener s.tables.sockets s'.tables.sockets
          × IsSized s'.tables
          × (log s'.world ≡ log s.world)
    unfolding on_error
    after_accept-IsAccepted listener none s h b =
        (on_error os context (accept_failed listener) s, refl, inl refl, h, u.error _ _)
    after_accept-IsAccepted listener (some fd) s h b =
        let (r, q, k) = server_add_fd-IsAdded fd listener s h b in
        let run = ap (λ o. o >>= λ r. done (settle fd listener r.1 r.0)) q in
        let c = close_fd-IsSame os context log tally u fd (close_failed listener fd) r.1 in
        elim k.sockets [
          | inl (e, sockets) ↦ (
            settle fd listener r.1 false,
            run ∙ ap (λ added. done (settle fd listener r.1 added)) e,
            inl (ap (λ t. t.sockets) c.0 ∙ sockets),
            subst IsSized (sym c.0) k.sized,
            c.1 ∙ k.world,
          )
          | inr (e, added) ↦ (
            r.1,
            run ∙ ap (λ added. done (settle fd listener r.1 added)) e,
            inr (fd, added),
            k.sized,
            k.world,
          )
        ]

    pub server_accept-IsAccepted :
        (listen_fd listener : ℕ) (s : Server W)
        → IsSized s.tables
        → count s < 2 ^ 31
        → (s' : Server W) × (server_accept os context listen_fd listener s ≡ done s')
          × IsAccepted listener s.tables.sockets s'.tables.sockets
          × IsSized s'.tables
          × (log s'.world ≡ log s.world)
    unfolding server_accept
    server_accept-IsAccepted listen_fd listener s h b =
        let r = os.accept listen_fd s.world in
        let (s', q, added, sized, world) =
          after_accept-IsAccepted listener r.0 (set_world r.1 s) h b in
        (s', q, added, sized, world ∙ u.accept listen_fd s.world)
