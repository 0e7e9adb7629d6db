-- ===== src/Server/Steps.antt =====
-- The server at work: sockets that are added and polled, as steps on the state of daemon/server.c.
use infod.Prelude.{
  ℕ, ◌+◌, ◌*◌, ◌^◌, ◌≤◌, ◌<◌, ◌≡◌, ◌⊎◌, refl, sym, ℤ, Bool, false, not, ◌&&◌, some, [], ◌∷◌, ◌++◌,
  ◌==◌, leb, length, arith, inl, inr, ap, ◌∙◌, length-append,
}
use mathlib.Core.Path.{subst}
use infod.Prelude.Ends.{done, done_inj}
use infod.Server.State.{Tables, Server, count, System, Context}
use infod.Server.{round_up, server_new, server_add_fd, server_add_listener, server_poll}
use infod.Server.Weigh.{weigh, weigh-append}
use infod.Server.Laws.{Upcalls, IsSized, IsHeld, IsPoll, HasNoErrors, ready, shut_door}
use infod.Server.Accept.{IsAdded, server_add_fd-IsAdded}
use infod.Server.Doors.{appended-IsKept}
use infod.Server.Poll.{length-IsAppended}
use infod.Server.Serve.{IsServing, server_poll_lem}
use infod.Server.Listen.{listening, held_off_but, server_add_listener_lem}

-- There is room for one more socket, and for another below it if `spare` is one.
abbrev pub HasRoom : ℕ → ℕ → ℕ → Type 0
HasRoom max spare n = (max ≡ 0) ⊎ (n + spare < max)

module _ {W : Type 0} (os : System W) (context : Context W) where
  -- Connections are added below the limit, and listeners where the limit is not reached by that. The
  -- number of sockets stays below 2^30 - 15, and poll() reports no error of a listener that is not
  -- polled for.
  pub data Serves : Server W → Server W → Type 0 where
    stay : {s : Server W} → Serves s s
    add_fd :
        {s s' t : Server W} (fd listener : ℕ) (added : Bool)
        → HasRoom context.max_sockets 0 (count s)
        → 2 * count s + 32 ≤ 2 ^ 31
        → server_add_fd os context (some fd) listener s ≡ done (added, s')
        → Serves s' t
        → Serves s t
    add_listener :
        {s s' t : Server W} (fd listener : ℕ) (added : Bool)
        → HasRoom context.max_sockets 1 (count s)
        → 2 * count s + 32 ≤ 2 ^ 31
        → server_add_listener os context fd listener s ≡ done (added, s')
        → Serves s' t
        → Serves s t
    polls :
        {s s' t : Server W} (timeout n : ℤ)
        → HasNoErrors os timeout s
        → 2 * count s + 32 ≤ 2 ^ 31
        → server_poll os context timeout s ≡ done (n, s')
        → Serves s' t
        → Serves s t

-- Over other tables with the same sockets.
IsServing-same :
    (max : ℕ) (t t' : Tables)
    → IsServing max t
    → IsSized t'
    → t'.sockets ≡ t.sockets
    → IsServing max t'
IsServing-same max t t' h s e = record {
  sized = s;
  idle = ap (weigh ready) e ∙ h.idle;
  held = subst (IsHeld max) (sym e) h.held;
  limit = λ z. omega (arith, ap length e, h.limit z);
}

-- A listener at the end, with room for one more.
IsServing-listening :
    (max fd listener : ℕ) (t t' : Tables)
    → HasRoom max 1 (length t.sockets)
    → IsServing max t
    → IsSized t'
    → t'.sockets ≡ held_off_but max fd listener t.sockets
    → IsServing max t'
IsServing-listening max fd listener t t' room h s e =
    let last = listening fd listener ∷ [] in
    let roomy : (not (max == 0) && leb max (length t.sockets + 1)) ≡ false = ground (arith, room) in
    let e' : t'.sockets ≡ t.sockets ++ last = e ∙ rw roomy refl in
    let n : length t'.sockets ≡ length t.sockets + 1 =
      ap length e' ∙ length-append t.sockets last in
    record {
      sized = s;
      idle = omega (arith, ap (weigh ready) e', weigh-append ready t.sockets last, h.idle);
      held = record {
        held = λ z le. absurd (ground (arith, room, z, le, n));
        let_in = λ o. omega (
          arith,
          ap (weigh shut_door) e',
          weigh-append shut_door t.sockets last,
          h.held.let_in (elim o [ inl z ↦ inl z | inr l ↦ inr (omega (arith, l, n)) ]),
        );
      };
      limit = λ z. ground (arith, room, z, n);
    }

module _ {W : Type 0} (os : System W) (context : Context W) (log : W → ℕ) (tally : ℕ → ℕ) where
  module _ (u : Upcalls os context log tally) where
    add_fd-IsServing :
        (fd listener : ℕ) (s : Server W) (r : Bool × Server W)
        → HasRoom context.max_sockets 0 (count s)
        → IsServing context.max_sockets s.tables
        → IsAdded os context log tally fd listener s r
        → IsServing context.max_sockets r.1.tables
    add_fd-IsServing fd listener s r room h a = elim a.sockets [
      | inl (e, same) ↦ IsServing-same context.max_sockets s.tables r.1.tables h a.sized same
      | inr (e, added) ↦
          let k =
            appended-IsKept os context log tally 0 fd listener s.tables.sockets r.1.tables.sockets
              (omega arith) added in
          let n =
            length-IsAppended os context log tally u fd listener s.tables.sockets r.1.tables.sockets
              added in
          record {
            sized = a.sized;
            idle = omega (arith, k.ready_le, h.idle);
            held = k.held h.held;
            limit = λ z. ground (arith, room, z, n);
          }
    ]

    add_listener-IsServing :
        (fd listener : ℕ) (s : Server W)
        → HasRoom context.max_sockets 1 (count s)
        → 2 * count s + 32 ≤ 2 ^ 31
        → IsServing context.max_sockets s.tables
        → (r : Bool × Server W) × (server_add_listener os context fd listener s ≡ done r)
          × IsServing context.max_sockets r.1.tables
    add_listener-IsServing fd listener s room b h =
        let (r, q, c, sized, world) =
          server_add_listener_lem os context log tally u fd listener s h.sized (omega (arith, b)) in
        (
          r,
          q,
          elim c [
            | inl (e, same) ↦ IsServing-same context.max_sockets s.tables r.1.tables h sized same
            | inr (e, made) ↦
                IsServing-listening context.max_sockets fd listener s.tables r.1.tables room h sized
                  made
          ],
        )

    Serves-IsServing :
        (s t : Server W)
        → IsPoll os
        → Serves os context s t
        → IsServing context.max_sockets s.tables
        → IsServing context.max_sockets t.tables
    Serves-IsServing s t o stay h = h
    Serves-IsServing s t o (add_fd fd listener added room b e r) h =
        let (r', q, a) =
          server_add_fd-IsAdded os context log tally u fd listener s h.sized (omega (arith, b)) in
        Serves-IsServing _ t o r (
          subst (λ x. IsServing context.max_sockets x.1.tables) (done_inj q e)
            (add_fd-IsServing fd listener s r' room h a))
    Serves-IsServing s t o (add_listener fd listener added room b e r) h =
        let (r', q, a) = add_listener-IsServing fd listener s room b h in
        Serves-IsServing _ t o r
          (subst (λ x. IsServing context.max_sockets x.1.tables) (done_inj q e) a)
    Serves-IsServing s t o (polls timeout n masked b e r) h =
        let (n', s', q, a, tallied) =
          server_poll_lem os context log tally u timeout s o masked h b in
        Serves-IsServing _ t o r
          (subst (λ x. IsServing context.max_sockets x.1.tables) (done_inj q e) a)

    new-IsServing : (w : W) → IsServing context.max_sockets (server_new w).tables
    unfolding server_new
    new-IsServing w = record {
      sized = record {
        nmax = unfold round_up in refl;
        sockets = omega arith;
        pollfds = omega arith;
      };
      idle = refl;
      held = record { held = λ z le. refl; let_in = λ o. refl };
      limit = λ z. omega arith;
    }

    -- In every state that the server reaches from server_new() by these steps, with callbacks that leave
    -- the tables alone, and a poll() that reports nothing with a result that is not positive, the arrays
    -- have room for the sockets, with nmax the next multiple of 16; no revents are left over; the limit
    -- is kept to; and the listeners are polled for below the limit and not at it.
    pub server_new-IsServing :
        (w : W) (t : Server W)
        → IsPoll os
        → Serves os context (server_new w) t
        → IsServing context.max_sockets t.tables
    server_new-IsServing w t o r = Serves-IsServing _ t o r (new-IsServing w)
