-- ===== src/Server/Listen.antt =====
-- server_add_listener() of daemon/server.c.
use infod.Prelude.{
  ℤ, negsuc, pos, ℕ, zero, suc, ◌+◌, ◌%◌, ◌^◌, ◌≤◌, ◌<◌, ◌≡◌, ◌⊎◌, refl, sym, Bool, true, false,
  not, ◌&&◌, List, [], ◌∷◌, ◌++◌, map, ◌==◌, leb, if◌then◌else◌, length, arith, Bool-cases, inl,
  inr, ap, ◌∙◌, length-append,
}
use mathlib.Core.Path.{subst}
use infod.Prelude.Ends.{done, done_inj, ◌>>=◌}
use infod.Server.State.{
  Socket, Tables, Server, count, System, Context, with_sockets, fresh_socket, pollin,
}
use infod.Server.{
  round_up, server_add_socket, server_add_listener, make_listener, add_listener_at, listen_enable,
}
use infod.Server.Weigh.{length-map}
use infod.Server.Laws.{Upcalls, IsSized}
use infod.Server.Resize.{round_up-le, round_up-lt, round_up-multiple}
use infod.Server.Accept.{held_off, length-held_off, server_add_socket_lem}

-- A listener as server_add_listener() leaves it.
abbrev pub listening : ℕ → ℕ → Socket
listening fd listener = record {
  fd = fd;
  events = pollin;
  revents = 0;
  client = 0;
  listener = listener;
  is_listener = true;
}

make_listener-last :
    (fd listener : ℕ) (es : List Socket)
    → make_listener listener (length es) (es ++ fresh_socket fd ∷ [])
      ≡ es ++ listening fd listener ∷ []
unfolding make_listener
make_listener-last fd listener [] = refl
make_listener-last fd listener (e ∷ es) = ap (λ l. e ∷ l) (make_listener-last fd listener es)

length-make_listener :
    (listener i : ℕ) (es : List Socket) → length (make_listener listener i es) ≡ length es
unfolding make_listener
length-make_listener listener i [] = refl
length-make_listener listener zero (e ∷ es) = refl
length-make_listener listener (suc i) (e ∷ es) = ap suc (length-make_listener listener i es)

map-last :
    (g : Socket → Socket) (es : List Socket) (e : Socket)
    → map g (es ++ e ∷ []) ≡ map g es ++ g e ∷ []
map-last g [] e = refl
map-last g (x ∷ es) e = ap (λ l. g x ∷ l) (map-last g es e)

-- The sockets that were there, held off at the limit; the new one is not.
abbrev pub held_off_but : ℕ → ℕ → ℕ → List Socket → List Socket
held_off_but max fd listener es =
    (if not (max == 0) && leb max (length es + 1) then map (listen_enable false) es else es)
    ++ listening fd listener ∷ []

make_listener-held_off :
    (max fd listener : ℕ) (es : List Socket)
    → make_listener listener (length es) (held_off max (es ++ fresh_socket fd ∷ []))
      ≡ held_off_but max fd listener es
make_listener-held_off max fd listener es =
    let n : length (es ++ fresh_socket fd ∷ []) ≡ length es + 1 =
      length-append es (fresh_socket fd ∷ []) in
    elim (Bool-cases (not (max == 0) && leb max (length es + 1))) [
      | inl e ↦
          rw (n, e, map-last (listen_enable false) es (fresh_socket fd))
            (ap
                (λ m.
                  make_listener listener m (map (listen_enable false) es ++ fresh_socket fd ∷ []))
                (sym (length-map (listen_enable false) es))
              ∙ make_listener-last fd listener (map (listen_enable false) es))
      | inr e ↦ rw (n, e) (make_listener-last fd listener es)
    ]

-- The index of a new socket is inside both arrays, whose size nmax is the least multiple of 16 that
-- is not below the number of sockets.
pub record IsInside (i : ℕ) (t : Tables) : Type 0 where
  pub socket : i < t.socket_cap
  pub pollfd : i < t.pollfd_cap
  pub multiple : t.nmax % 16 ≡ 0
  pub enough : length t.sockets ≤ t.nmax
  pub least : t.nmax < length t.sockets + 16

module _ {W : Type 0} (os : System W) (context : Context W) (log : W → ℕ) (tally : ℕ → ℕ) where
  module _ (u : Upcalls os context log tally) where
    -- In tables that fit fewer than 2^31 sockets, with callbacks that leave the tables alone, either -1
    -- is returned and the sockets are as they were, or the listener is the last of the sockets and is
    -- polled for, be there room for connections or not; other listeners are held off at the limit.
    pub server_add_listener_lem :
        (fd listener : ℕ) (s : Server W)
        → IsSized s.tables
        → count s < 2 ^ 31
        → (r : Bool × Server W) × (server_add_listener os context fd listener s ≡ done r)
          × (((r.0 ≡ false) × (r.1.tables.sockets ≡ s.tables.sockets))
              ⊎ ((r.0 ≡ true)
                  × (r.1.tables.sockets
                      ≡ held_off_but context.max_sockets fd listener s.tables.sockets)))
          × IsSized r.1.tables
          × (log r.1.world ≡ log s.world)
    unfolding server_add_listener
    server_add_listener_lem fd listener s h b =
        let (r, q, c, sized, world) = server_add_socket_lem os context log tally u fd s h b in
        let run = ap (λ o. o >>= λ r. done (add_listener_at os context listener r)) q in
        elim c [
          | inl (e, sockets) ↦ (
            (false, r.1),
            run ∙ ap (λ o. done (add_listener_at os context listener (o, r.1))) e,
            inl (refl, sockets),
            sized,
            world,
          )
          | inr (e, sockets) ↦
              let t = with_sockets (make_listener listener (count s) r.1.tables.sockets) r.1 in
              let made : t.tables.sockets
                  ≡ held_off_but context.max_sockets fd listener s.tables.sockets =
                ap (make_listener listener (count s)) sockets
                ∙ make_listener-held_off context.max_sockets fd listener s.tables.sockets in
              (
                (true, t),
                run ∙ ap (λ o. done (add_listener_at os context listener (o, r.1))) e,
                inr (refl, made),
                record {
                  nmax =
                      sized.nmax
                      ∙ ap round_up
                          (sym (length-make_listener listener (count s) r.1.tables.sockets));
                  sockets = sized.sockets;
                  pollfds = sized.pollfds;
                },
                world,
              )
        ]

    -- server_add_socket(), in tables that fit fewer than 2^31 sockets, with callbacks that leave the
    -- tables alone, returns -1 or the number of sockets before, which is an index inside both arrays;
    -- nmax is then the least multiple of 16 that is not below the number of sockets.
    pub server_add_socket-IsInside :
        (fd : ℕ) (n : ℤ) (s s' : Server W)
        → IsSized s.tables
        → count s < 2 ^ 31
        → server_add_socket os context fd s ≡ done (n, s')
        → (n ≡ negsuc 0) ⊎ ((n ≡ pos (count s)) × IsInside (count s) s'.tables)
    server_add_socket-IsInside fd n s s' h b e =
        let (r, q, c, sized, world) = server_add_socket_lem os context log tally u fd s h b in
        let same : r ≡ (n, s') = done_inj q e in
        elim c [
          | inl (z, sockets) ↦ inl (sym (ap (λ x. x.0) same) ∙ z)
          | inr (z, sockets) ↦
              let grown : length s'.tables.sockets ≡ suc (count s) =
                ap (λ x. length x.1.tables.sockets) (sym same)
                ∙ ap length sockets
                ∙ length-held_off context.max_sockets (s.tables.sockets ++ fresh_socket fd ∷ [])
                ∙ omega (arith, length-append s.tables.sockets (fresh_socket fd ∷ [])) in
              let k : IsSized s'.tables = subst (λ x. IsSized x.1.tables) same sized in
              let enough = round_up-le (length s'.tables.sockets) (omega (arith, grown, b)) in
              inr (
                sym (ap (λ x. x.0) same) ∙ z,
                record {
                  socket = omega (arith, grown, k.nmax, k.sockets, enough);
                  pollfd = omega (arith, grown, k.nmax, k.pollfds, enough);
                  multiple =
                      ap (λ m. m % 16) k.nmax
                      ∙ round_up-multiple (length s'.tables.sockets) (omega (arith, grown, b));
                  enough = omega (arith, k.nmax, enough);
                  least = omega (arith, k.nmax, round_up-lt (length s'.tables.sockets));
                },
              )
        ]
