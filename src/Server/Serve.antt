-- ===== src/Server/Serve.antt =====
-- server_poll() of daemon/server.c as a whole.
use infod.Prelude.{
  ℕ, zero, suc, ◌+◌, ◌*◌, ◌^◌, ◌≤◌, ◌<◌, ◌≡◌, ◌≢◌, ◌⊎◌, refl, sym, ℤ, pos, is_positive, true, false,
  none, List, [], ◌∷◌, map, ◌==◌, All, length, get_elem?, arith, Bool-cases, Option-cases, inl, inr,
  ap, ◌∙◌, ==_iff,
}
use mathlib.Core.Path.{subst}
use infod.Prelude.Ends.{done, ◌>>=◌}
use infod.Server.State.{Socket, Tables, Server, count, System, Context, with_sockets, set_world}
use infod.Server.{
  round_up, round_at, poll_loop, fd_and_events, with_revents, polled, after_poll, server_poll,
}
use infod.Server.Weigh.{weigh, take-length, get_elem?-lt, get_elem?-none}
use infod.Server.Laws.{
  Upcalls, IsSized, IsHeld, IsMasked, IsPoll, HasNoErrors, ready, pending, open_door, shut_door,
}
use infod.Server.Poll.{IsPolling, left, round-IsRound}

-- Between two calls of server_poll().
pub record IsServing (max : ℕ) (t : Tables) : Type 0 where
  pub sized : IsSized t
  pub idle : weigh ready t.sockets ≡ 0
  pub held : IsHeld max t.sockets
  pub limit : max ≢ 0 → length t.sockets ≤ max

pending-idle :
    (tally : ℕ → ℕ) (es : List Socket) → weigh ready es ≡ 0 → weigh (pending tally) es ≡ 0
pending-idle tally [] h = refl
pending-idle tally (e ∷ es) h =
    let one : ready e ≡ 0 → pending tally e ≡ 0 = λ q. ground (arith, q) in
    omega (arith, one (omega (arith, h)), pending-idle tally es (omega (arith, h)))

module _ {W : Type 0} (os : System W) (context : Context W) (log : W → ℕ) (tally : ℕ → ℕ) where
  record IsPolled (s s' : Server W) : Type 0 where
    serving : IsServing context.max_sockets s'.tables
    tallied : log s'.world ≡ log s.world + weigh (pending tally) s.tables.sockets

  module _ (u : Upcalls os context log tally) where
    abbrev Ends : ℕ → ℕ → Server W → Type 0
    Ends fuel i s = (s' : Server W) × (poll_loop os context fuel i s ≡ done s') × IsPolled s s'

    at_end :
        (i : ℕ) (s : Server W)
        → get_elem? s.tables.sockets i ≡ none
        → IsPolling os context log tally i s
        → IsPolled s s
    at_end i s e p =
        let all : weigh ready s.tables.sockets ≡ 0 =
          sym (
            ap (weigh ready) (take-length i s.tables.sockets (get_elem?-none s.tables.sockets i e)))
          ∙ p.quiet in
        record {
          serving = record { sized = p.sized; idle = all; held = p.held; limit = p.limit };
          tallied = omega (arith, pending-idle tally s.tables.sockets all);
        }

    poll_loop-Ends :
        (fuel i : ℕ) (s : Server W)
        → IsPolling os context log tally i s
        → left os context log tally i s ≤ fuel
        → Ends fuel i s
    unfolding poll_loop
    poll_loop-Ends zero i s p b = elim (Option-cases (get_elem? s.tables.sockets i)) [
      | inl e ↦ (s, rw e refl, at_end i s e p)
      | inr (x, e) ↦ absurd (omega (arith, get_elem?-lt s.tables.sockets i x e, b))
    ]
    poll_loop-Ends (suc fuel) i s p b = elim (Option-cases (get_elem? s.tables.sockets i)) [
      | inl e ↦ (s, rw e refl, at_end i s e p)
      | inr (x, e) ↦
          let (j, s', q, r) = round-IsRound os context log tally u i x s e p in
          let (s'', run, k) = poll_loop-Ends fuel j s' r.polling (omega (arith, r.fewer, b)) in
          (
            s'',
            ap (λ o. round_at os context i o s (λ j s'. poll_loop os context fuel j s')) e
                ∙ ap (λ o. o >>= λ r. poll_loop os context fuel r.0 r.1) q
                ∙ run,
            record { serving = k.serving; tallied = omega (arith, k.tallied, r.tallied) },
          )
    ]

    with_revents_lem :
        (es : List Socket) (rs : List ℕ)
        → IsMasked (map fd_and_events es) rs
        → weigh ready es ≡ 0
        → (length (with_revents es rs) ≡ length es)
          × (weigh open_door (with_revents es rs) ≤ weigh open_door es)
          × (weigh shut_door (with_revents es rs) ≡ weigh shut_door es)
    unfolding with_revents
    with_revents_lem [] rs m z = (refl, omega arith, refl)
    with_revents_lem (e ∷ es) [] m z = (refl, omega arith, refl)
    with_revents_lem (e ∷ es) (r ∷ rs) m z =
        let k = with_revents_lem es rs m.1 (omega (arith, z)) in
        let e' = record e { revents = r } in
        let lower_nmax : open_door e' ≤ open_door e = ground (arith, m.0) in
        (ap suc k.0, omega (arith, k.1, lower_nmax), omega (arith, k.2))

    idle-with_revents :
        (es : List Socket) (rs : List ℕ)
        → All (λ r. r ≡ 0) rs
        → weigh ready es ≡ 0
        → weigh ready (with_revents es rs) ≡ 0
    unfolding with_revents
    idle-with_revents [] rs m z = refl
    idle-with_revents (e ∷ es) [] m z = z
    idle-with_revents (e ∷ es) (r ∷ rs) m z =
        rw m.0 (omega (arith, idle-with_revents es rs m.1 (omega (arith, z))))

    ready-length : (es : List Socket) → weigh ready es ≤ length es
    ready-length [] = omega arith
    ready-length (e ∷ es) =
        let one : ready e ≤ 1 = ground arith in omega (arith, one, ready-length es)

    -- The sockets with the revents that poll() gives.
    abbrev pub found : ℤ → Server W → List Socket
    found timeout s =
        with_revents s.tables.sockets
          (os.poll (map fd_and_events s.tables.sockets) timeout s.world).1.0

    after_poll-IsPolled :
        (n : ℤ) (s : Server W)
        → IsSized s.tables
        → 2 * count s + 32 ≤ 2 ^ 31
        → IsHeld context.max_sockets s.tables.sockets
        → (context.max_sockets ≢ 0 → count s ≤ context.max_sockets)
        → (is_positive n ≡ false → weigh ready s.tables.sockets ≡ 0)
        → (s' : Server W) × (after_poll os context (n, s) ≡ done (n, s')) × IsPolled s s'
    after_poll-IsPolled n s h b k l z = elim (Bool-cases (is_positive n)) [
      | inl e ↦
          let most = ready-length s.tables.sockets in
          let (s', q, r) =
            poll_loop-Ends (2 * count s) 0 s
              (record {
                sized = h;
                room = omega (arith, most, b);
                quiet = refl;
                held = k;
                limit = l;
              })
              (omega (arith, most)) in
          (s', rw e (ap (λ o. o >>= λ s'. done (n, s')) q), r)
      | inr e ↦ (
        s,
        rw e refl,
        record {
          serving = record { sized = h; idle = z e; held = k; limit = l };
          tallied = omega (arith, pending-idle tally s.tables.sockets (z e));
        },
      )
    ]

    -- A call of server_poll() with fewer than 2^30 - 15 sockets, in which poll() reports no error of a
    -- listener that is not polled for, and nothing with a result that is not positive, with callbacks
    -- that leave the tables alone, ends with no assertion failed. It keeps the invariant, and hands each
    -- client that poll() found ready to on_ready() once.
    pub server_poll_lem :
        (timeout : ℤ) (s : Server W)
        → IsPoll os
        → HasNoErrors os timeout s
        → IsServing context.max_sockets s.tables
        → 2 * count s + 32 ≤ 2 ^ 31
        → (n : ℤ) × (s' : Server W) × (server_poll os context timeout s ≡ done (n, s'))
          × IsServing context.max_sockets s'.tables
          × (log s'.world ≡ log s.world + weigh (pending tally) (found timeout s))
    unfolding server_poll polled
    server_poll_lem timeout s o masked h b = elim (Bool-cases (count s == 0)) [
      | inl e ↦ (pos 0, s, rw e refl, h, none_found e)
      | inr e ↦
          let fds = map fd_and_events s.tables.sockets in
          let r = os.poll fds timeout s.world in
          let m = with_revents_lem s.tables.sockets r.1.0 masked h.idle in
          let t = with_sockets (found timeout s) (set_world r.1.1 s) in
          let (s', q, k) =
            after_poll-IsPolled r.0 t
              (record {
                nmax = h.sized.nmax ∙ ap round_up (sym m.0);
                sockets = h.sized.sockets;
                pollfds = h.sized.pollfds;
              })
              (omega (arith, m.0, b))
              (record {
                held = λ z le. omega (arith, m.1, h.held.held z (omega (arith, m.0, le)));
                let_in = λ c.
                    m.2
                    ∙ h.held.let_in
                        (subst (λ n. (context.max_sockets ≡ 0) ⊎ (n < context.max_sockets)) m.0 c);
              })
              (λ z. omega (arith, m.0, h.limit z))
              (λ z.
                idle-with_revents s.tables.sockets r.1.0 (o.idle fds timeout s.world z) h.idle) in
          (r.0, s', rw e q, k.serving, omega (arith, k.tallied, u.poll fds timeout s.world))
    ]
      where
        none_found :
            (count s == 0) ≡ true
            → log s.world ≡ log s.world + weigh (pending tally) (found timeout s)
        none_found e =
            let fds = map fd_and_events s.tables.sockets in
            let rs = (os.poll fds timeout s.world).1.0 in
            let n = (with_revents_lem s.tables.sockets rs masked h.idle).0 in
            let z = (==_iff (count s) 0).0 e in
            omega (
              arith,
              pending-idle tally (found timeout s)
                  (omega (arith, ready-length (found timeout s), n, z)),
            )
