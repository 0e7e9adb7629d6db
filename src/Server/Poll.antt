-- ===== src/Server/Poll.antt =====
-- server_poll() of daemon/server.c: one round of its loop.
use infod.Prelude.{
  ℕ, zero, suc, ◌+◌, ◌-◌, ◌^◌, ◌≤◌, ◌<◌, ◌≡◌, ◌≢◌, refl, sym, ℤ, pos, negsuc, true, false, some,
  List, ◌==◌, length, get_elem?, set, take, arith, Bool-cases, inl, inr, ap, ◌∙◌, length-append,
  ==_iff, [], ◌∷◌, ◌++◌,
}
use mathlib.Core.Path.{subst}
use infod.Prelude.Ends.{done, ◌>>=◌}
use infod.Server.State.{
  Socket, Server, count, System, Context, with_sockets, on_ready_failed, fresh_socket,
}
use infod.Server.{
  on_error, round_up, close_delete_socket, server_accept, after_ready, handle_ready, round,
}
use infod.Server.Weigh.{
  weigh, length-set, weigh-take-suc, get_elem?-lt, get_elem?-set, length-moved, moved,
  weigh-get_elem?,
}
use infod.Server.Laws.{Upcalls, IsSized, IsHeld, ready, pending, open_door}
use infod.Server.Close.{length-reopened, close_delete_socket-IsClosed}
use infod.Server.Accept.{
  appended, length-assign, length-held_off, IsAppended, server_accept-IsAccepted,
}
use infod.Server.Doors.{IsKept, IsCleared, set-IsCleared, moved-IsKept, appended-IsKept}

module _ {W : Type 0} (os : System W) (context : Context W) (log : W → ℕ) (tally : ℕ → ℕ) where
  -- In the loop of server_poll(): what comes before `i` is not ready, and there is room to accept a
  -- connection for each that is.
  pub record IsPolling (i : ℕ) (s : Server W) : Type 0 where
    pub sized : IsSized s.tables
    pub room : count s + weigh ready s.tables.sockets + 32 ≤ 2 ^ 31
    pub quiet : weigh ready (take i s.tables.sockets) ≡ 0
    pub held : IsHeld context.max_sockets s.tables.sockets
    pub limit : context.max_sockets ≢ 0 → count s ≤ context.max_sockets

  abbrev pub left : ℕ → Server W → ℕ
  left i s = (count s - i) + weigh ready s.tables.sockets

  -- A round of the loop.
  pub record IsRound (i : ℕ) (s : Server W) (j : ℕ) (s' : Server W) : Type 0 where
    pub polling : IsPolling j s'
    pub fewer : left j s' < left i s
    pub tallied :
        log s'.world + weigh (pending tally) s'.tables.sockets
        ≡ log s.world + weigh (pending tally) s.tables.sockets

  -- The socket `e` at `i` has its revents cleared, and has been handed to on_ready() if it is a client.
  record IsServed (i : ℕ) (e : Socket) (s t : Server W) : Type 0 where
    cleared : IsCleared context.max_sockets tally i e s.tables.sockets t.tables.sockets
    sized : IsSized t.tables
    place : get_elem? t.tables.sockets i ≡ some (record e { revents = 0 })
    same : count t ≡ count s
    logged : log t.world ≡ log s.world + pending tally e

  module _ (u : Upcalls os context log tally) where
    set_stays :
        (i : ℕ) (e : Socket) (s t : Server W)
        → IsPolling i s
        → IsServed i e s t
        → IsRound i s (suc i) t
    set_stays i e s t p v =
        let lt = get_elem?-lt t.tables.sockets i _ v.place in
        record {
          polling = record {
            sized = v.sized;
            room = omega (arith, v.same, v.cleared.ready_lt, p.room);
            quiet = omega (arith, v.cleared.quiet, p.quiet);
            held = v.cleared.held p.held;
            limit = λ n. omega (arith, v.same, p.limit n);
          };
          fewer = omega (arith, v.same, v.cleared.ready_lt, lt);
          tallied = omega (arith, v.logged, v.cleared.tally_eq);
        }

    set_closed :
        (i : ℕ) (e : Socket) (s t : Server W)
        → e.is_listener ≡ false
        → IsPolling i s
        → IsServed i e s t
        → (s' : Server W) × (close_delete_socket os context i t ≡ done s') × IsRound i s i s'
    set_closed i e s t c p v =
        let e' = record e { revents = 0 } in
        let (s', q, k) =
          close_delete_socket-IsClosed os context log tally u i e' t v.place c v.sized
            (omega (arith, v.same, p.room)) in
        let lt = get_elem?-lt t.tables.sockets i _ v.place in
        let m = subst (IsKept context.max_sockets tally i t.tables.sockets) (sym k.sockets) (
          moved-IsKept context.max_sockets tally i e' k.last t.tables.sockets v.place k.is_last c
            refl) in
        let n : suc (count s') ≡ count t = omega (
          arith,
          ap length k.sockets,
          length-reopened context.max_sockets (moved i k.last t.tables.sockets),
          length-moved i k.last t.tables.sockets,
          lt,
        ) in
        (
          s',
          q,
          record {
            polling = record {
              sized = k.sized;
              room = omega (arith, n, v.same, m.ready_le, v.cleared.ready_lt, p.room);
              quiet = omega (
                arith,
                m.quiet,
                weigh-take-suc ready t.tables.sockets i e' v.place,
                v.cleared.quiet,
                p.quiet,
              );
              held = m.held (v.cleared.held p.held);
              limit = λ z. omega (arith, n, v.same, p.limit z);
            };
            fewer = omega (arith, n, v.same, m.ready_le, v.cleared.ready_lt, lt);
            tallied = omega (arith, k.world, v.logged, m.tally_eq, v.cleared.tally_eq);
          },
        )

    pub length-IsAppended :
        (fd listener : ℕ) (es es' : List Socket)
        → IsAppended os context log tally fd listener es es'
        → length es' ≡ suc (length es)
    length-IsAppended fd listener es es' h =
        let n : length (appended os context log tally fd es) ≡ suc (length es) = omega (
          arith,
          length-held_off context.max_sockets (es ++ fresh_socket fd ∷ []),
          length-append es (fresh_socket fd ∷ []),
        ) in
        elim h [
          | inl e ↦ ap length e ∙ n
          | inr (c, e) ↦ ap length e ∙ length-assign fd c listener _ ∙ n
        ]

    set_accepted :
        (i : ℕ) (e : Socket) (s t : Server W)
        → e.is_listener ≡ true
        → e.revents ≢ 0
        → get_elem? s.tables.sockets i ≡ some e
        → IsPolling i s
        → IsServed i e s t
        → (s' : Server W) × (server_accept os context e.fd e.listener t ≡ done s')
          × IsRound i s (suc i) s'
    set_accepted i e s t c n at p v =
        let lt = get_elem?-lt t.tables.sockets i _ v.place in
        let (s', q, a, sized, world) =
          server_accept-IsAccepted os context log tally u e.fd e.listener t v.sized
            (omega (arith, v.same, v.cleared.ready_lt, p.room)) in
        let is_open : open_door e ≡ 1 = ground (arith, c, n) in
        let some_open = weigh-get_elem? open_door s.tables.sockets i e at in
        let below : context.max_sockets ≢ 0 → count s < context.max_sockets =
          λ z. ground (arith, p.held.held z, some_open, is_open) in
        (
          s',
          q,
          elim a [
            | inl same ↦ set_stays i e s s' p (record {
              cleared =
                  subst (IsCleared context.max_sockets tally i e s.tables.sockets) (sym same)
                    v.cleared;
              sized = sized;
              place = ap (λ es. get_elem? es i) same ∙ v.place;
              same = ap length same ∙ v.same;
              logged = world ∙ v.logged;
            })
            | inr (fd, added) ↦
                let m =
                  appended-IsKept os context log tally (suc i) fd e.listener t.tables.sockets
                    s'.tables.sockets lt added in
                let k = length-IsAppended fd e.listener t.tables.sockets s'.tables.sockets added in
                record {
                  polling = record {
                    sized = sized;
                    room = omega (arith, k, v.same, m.ready_le, v.cleared.ready_lt, p.room);
                    quiet = omega (arith, m.quiet, v.cleared.quiet, p.quiet);
                    held = m.held (v.cleared.held p.held);
                    limit = λ z. omega (arith, k, v.same, below z);
                  };
                  fewer = omega (arith, k, v.same, m.ready_le, v.cleared.ready_lt, lt);
                  tallied = omega (arith, world, v.logged, m.tally_eq, v.cleared.tally_eq);
                }
          ],
        )

    client_served :
        (i : ℕ) (e : Socket) (s t : Server W) (n : ℤ)
        → e.is_listener ≡ false
        → IsPolling i s
        → IsServed i e s t
        → (j : ℕ) × (s' : Server W) × (after_ready os context i e n t ≡ done (j, s'))
          × IsRound i s j s'
    unfolding on_error
    client_served i e s t (pos zero) c p v =
        let (s', q, r) = set_closed i e s t c p v in
        (i, s', ap (λ o. o >>= λ s'. done (i, s')) q, r)
    client_served i e s t (pos (suc n)) c p v = (suc i, t, refl, set_stays i e s t p v)
    client_served i e s t (negsuc n) c p v =
        let w : IsServed i e s (on_error os context (on_ready_failed e.listener e.fd) t) = record {
          cleared = v.cleared;
          sized = v.sized;
          place = v.place;
          same = v.same;
          logged = u.error _ _ ∙ v.logged;
        } in
        let (s', q, r) = set_closed i e s _ c p w in
        (i, s', ap (λ o. o >>= λ s'. done (i, s')) q, r)

    abbrev cleared_at : ℕ → Socket → Server W → Server W
    cleared_at i e s = with_sockets (set s.tables.sockets i (record e { revents = 0 })) s

    listener_tally : (e : Socket) → e.is_listener ≡ true → pending tally e ≡ 0
    listener_tally e c = rw c refl

    client_tally :
        (e : Socket) → e.is_listener ≡ false → e.revents ≢ 0 → pending tally e ≡ tally e.fd
    client_tally e c n = ground arith

    handle_listener :
        (i : ℕ) (e : Socket) (t s' : Server W)
        → e.is_listener ≡ true
        → server_accept os context e.fd e.listener t ≡ done s'
        → handle_ready os context i e t ≡ done (suc i, s')
    handle_listener i e t s' c q = rw c (ap (λ o. o >>= λ s'. done (suc i, s')) q)

    handle_client :
        (i : ℕ) (e : Socket) (t : Server W) (r : ℕ × Server W)
        → e.is_listener ≡ false
        → after_ready os context i e
            (context.on_ready e.client e.fd t).0
            (context.on_ready e.client e.fd t).1
          ≡ done r
        → handle_ready os context i e t ≡ done r
    handle_client i e t r c q = rw c q

    handle_ready-IsRound :
        (i : ℕ) (e : Socket) (s : Server W)
        → e.revents ≢ 0
        → get_elem? s.tables.sockets i ≡ some e
        → IsPolling i s
        → (j : ℕ) × (s' : Server W) × (handle_ready os context i e (cleared_at i e s)
            ≡ done (j, s'))
          × IsRound i s j s'
    handle_ready-IsRound i e s n at p =
        let t = cleared_at i e s in
        let es = length-set s.tables.sockets i (record e { revents = 0 }) in
        let sized : IsSized t.tables = record {
          nmax = p.sized.nmax ∙ ap round_up (sym es);
          sockets = p.sized.sockets;
          pollfds = p.sized.pollfds;
        } in
        let place =
          get_elem?-set s.tables.sockets i (record e { revents = 0 })
            (get_elem?-lt s.tables.sockets i e at) in
        let cleared = set-IsCleared context.max_sockets tally i e s.tables.sockets at n in
        elim (Bool-cases e.is_listener) [
          | inl c ↦
              let v : IsServed i e s t = record {
                cleared = cleared;
                sized = sized;
                place = place;
                same = es;
                logged = omega (arith, listener_tally e c);
              } in
              let (s', q, r) = set_accepted i e s t c n at p v in
              (suc i, s', handle_listener i e t s' c q, r)
          | inr c ↦
              let h = u.on_ready e.client e.fd t in
              let o = context.on_ready e.client e.fd t in
              let v : IsServed i e s o.1 = record {
                cleared =
                    subst (λ x. IsCleared context.max_sockets tally i e s.tables.sockets x.sockets)
                      (sym h.0) cleared;
                sized = subst IsSized (sym h.0) sized;
                place = ap (λ x. get_elem? x.sockets i) h.0 ∙ place;
                same = ap (λ x. length x.sockets) h.0 ∙ es;
                logged = h.1 ∙ omega (arith, client_tally e c n);
              } in
              let (j, s', q, r) = client_served i e s o.1 o.0 c p v in
              (j, s', handle_client i e t (j, s') c q, r)
        ]

    quiet-IsRound :
        (i : ℕ) (e : Socket) (s : Server W)
        → e.revents ≡ 0
        → get_elem? s.tables.sockets i ≡ some e
        → IsPolling i s
        → IsRound i s (suc i) s
    quiet-IsRound i e s n at p =
        let none_ready : ready e ≡ 0 = rw n refl in
        record {
          polling = record {
            sized = p.sized;
            room = p.room;
            quiet =
                omega (arith, weigh-take-suc ready s.tables.sockets i e at, none_ready, p.quiet);
            held = p.held;
            limit = p.limit;
          };
          fewer = omega (arith, get_elem?-lt s.tables.sockets i e at);
          tallied = refl;
        }

    -- Every round ends well, and leaves less to do.
    pub round-IsRound :
        (i : ℕ) (e : Socket) (s : Server W)
        → get_elem? s.tables.sockets i ≡ some e
        → IsPolling i s
        → (j : ℕ) × (s' : Server W) × (round os context i e s ≡ done (j, s')) × IsRound i s j s'
    unfolding round
    round-IsRound i e s at p = elim (Bool-cases (e.revents == 0)) [
      | inl q ↦ (suc i, s, rw q refl, quiet-IsRound i e s ((==_iff e.revents 0).0 q) at p)
      | inr q ↦
          let (j, s', run, r) =
            handle_ready-IsRound i e s (λ z. absurd (ground (arith, z, q))) at p in
          (j, s', rw q run, r)
    ]
