-- ===== src/Server/Tests.antt =====
-- The server of daemon/server.c over a system of a few lists.
use infod.Prelude.{
  ℕ, zero, suc, ◌+◌, ◌≡◌, ◌⊎◌, refl, ℤ, pos, negsuc, is_positive, Bool, true, false, Option, none,
  some, List, [], ◌∷◌, ◌++◌, map, ◌==◌, leb, if◌then◌else◌, All, arith, inr,
}
use infod.Prelude.Ends.{done}
use infod.Server.State.{Server, count, System, Context, fresh_socket}
use infod.Server.{
  as_int, fd_and_events, assign, make_listener, server_resize, server_listen_enable, server_new,
  server_add_socket, server_add_fd, server_add_listener, server_poll, server_free, round_up,
  with_revents,
}
use infod.Server.Laws.{Upcalls, IsSized, IsMasked, IsPoll}
use infod.Server.Accept.{IsAdded, server_add_fd-IsAdded}
use infod.Server.Serve.{IsServing, server_poll_lem}
use infod.Server.Listen.{
  listening, held_off_but, IsInside, server_add_listener_lem, server_add_socket-IsInside,
}
use infod.Server.Steps.{stay, add_fd, add_listener, server_new-IsServing}
use infod.Server.Free.{Closers, server_free-closes}

-- `incoming` waits to be accepted; the others list what on_ready() and close() were called with.
record Trace : Type 0 where
  incoming : List ℕ
  handled : List ℕ
  closed : List ℕ

abbrev next_of : List ℕ → Option ℕ
next_of [] = none
next_of (fd ∷ fds) = some fd

abbrev rest_of : List ℕ → List ℕ
rest_of [] = []
rest_of (fd ∷ fds) = fds

-- Descriptors up to 6 are ready, where poll() is asked about them.
abbrev revents_of : ℕ × ℕ → ℕ
revents_of (fd, events) = if events == 0 then 0 else if leb fd 6 then 1 else 0

abbrev sum : List ℕ → ℕ
sum [] = 0
sum (n ∷ ns) = n + sum ns

abbrev system : System Trace
system = record {
  realloc = λ n w. (true, w);
  getfl = λ fd w. some 2;
  setfl = λ fd val w. w;
  accept = λ fd w. (next_of w.incoming, record w { incoming = rest_of w.incoming });
  close = λ fd w. (true, record w { closed = w.closed ++ fd ∷ [] });
  poll = λ fds timeout w. (pos (sum (map revents_of fds)), (map revents_of fds, w));
  stderr = λ m w. w;
}

abbrev handle : ℕ → ℕ → Server Trace → ℤ × Server Trace
handle client fd s = (
  if fd == 5 then pos 0 else pos 1,
  record s { world = record s.world { handled = fd ∷ s.world.handled } },
)

abbrev context : Context Trace
context = record {
  max_sockets = 4;
  on_accept = some (λ fd listener s. (fd + 100, s));
  on_ready = handle;
  on_close = none;
  on_listener_close = none;
  on_error = none;
}

-- How often on_ready() has seen 5.
abbrev seen : List ℕ → ℕ
seen [] = 0
seen (fd ∷ fds) = seen fds + (if fd == 5 then 1 else 0)

abbrev times : Trace → ℕ
times w = seen w.handled

abbrev five : ℕ → ℕ
five fd = if fd == 5 then 1 else 0

upcalls : Upcalls system context times five
upcalls = record {
  realloc = λ n w. refl;
  setfl = λ fd val w. refl;
  accept = λ fd w. refl;
  close = λ fd w. refl;
  poll = λ fds timeout w. refl;
  error = λ m w. refl;
  on_accept = λ fd listener s. (refl, refl);
  on_close = tt;
  on_ready = λ client fd s. (refl, refl);
}

masked : (fds : List (ℕ × ℕ)) → IsMasked fds (map revents_of fds)
masked [] = tt
masked (e ∷ fds) = ((λ z. rw z refl), masked fds)

zero_sum : (ns : List ℕ) → sum ns ≡ 0 → All (λ n. n ≡ 0) ns
zero_sum [] h = tt
zero_sum (n ∷ ns) h = (omega (arith, h), zero_sum ns (omega (arith, h)))

not_positive : (n : ℕ) → is_positive (pos n) ≡ false → n ≡ 0
not_positive zero h = refl
not_positive (suc n) h = absurd (grind (arith, h))

system-IsPoll : IsPoll system
system-IsPoll = record {
  idle = λ fds timeout w h. zero_sum (map revents_of fds) (not_positive _ h);
}

abbrev quiet : Trace
quiet = record { incoming = 7 ∷ []; handled = []; closed = [] }

-- A listener, and two clients.
abbrev busy : Server Trace
busy = record {
  tables = record {
    sockets = listening 3 1 ∷ fresh_socket 5 ∷ fresh_socket 6 ∷ [];
    nmax = 16;
    socket_cap = 16;
    pollfd_cap = 16;
  };
  world = quiet;
}

busy-IsSized : IsSized busy.tables
unfolding round_up
busy-IsSized = record { nmax = refl; sockets = omega arith; pollfds = omega arith }

busy-IsServing : IsServing 4 busy.tables
busy-IsServing = record {
  sized = busy-IsSized;
  idle = refl;
  held = record { held = λ z le. absurd (omega (arith, le)); let_in = λ o. refl };
  limit = λ z. omega arith;
}

abbrev started : Server Trace
started = record {
  tables = record {
    sockets = listening 3 1 ∷ record (fresh_socket 5) { client = 105; listener = 1 } ∷ [];
    nmax = 16;
    socket_cap = 16;
    pollfd_cap = 16;
  };
  world = quiet;
}

-- A listener and a connection are added.
server_new-IsServing_example : IsServing 4 started.tables
unfolding server_new server_add_listener server_add_fd server_add_socket server_resize round_up
    as_int make_listener assign server_listen_enable
server_new-IsServing_example =
    server_new-IsServing system context times five upcalls quiet started system-IsPoll (
      add_listener 3 1 true (inr (omega arith)) (omega arith) refl
        (add_fd 5 1 true (inr (omega arith)) (omega arith) refl stay))

server_poll_example :
    (n : ℤ) × (s : Server Trace) × (server_poll system context (negsuc 0) busy ≡ done (n, s))
    × IsServing 4 s.tables
    × (times s.world ≡ 1)
unfolding with_revents
server_poll_example =
    server_poll_lem system context times five upcalls (negsuc 0) busy system-IsPoll
      (masked (map fd_and_events busy.tables.sockets)) busy-IsServing (omega arith)

server_add_fd_example :
    (r : Bool × Server Trace) × (server_add_fd system context (some 8) 1 busy ≡ done r)
    × IsAdded system context times five 8 1 busy r
server_add_fd_example =
    server_add_fd-IsAdded system context times five upcalls 8 1 busy busy-IsSized (omega arith)

server_add_listener_example :
    (r : Bool × Server Trace) × (server_add_listener system context 9 2 busy ≡ done r)
    × (((r.0 ≡ false) × (r.1.tables.sockets ≡ busy.tables.sockets))
        ⊎ ((r.0 ≡ true) × (r.1.tables.sockets ≡ held_off_but 4 9 2 busy.tables.sockets)))
    × IsSized r.1.tables
    × (times r.1.world ≡ 0)
server_add_listener_example =
    server_add_listener_lem system context times five upcalls 9 2 busy busy-IsSized (omega arith)

added : Server Trace
added = record {
  tables = record {
    sockets =
        record (listening 3 1) { events = 0 }
        ∷ fresh_socket 5
        ∷ fresh_socket 6
        ∷ fresh_socket 8
        ∷ [];
    nmax = 16;
    socket_cap = 16;
    pollfd_cap = 16;
  };
  world = quiet;
}

server_add_socket-IsInside_example :
    (pos 3 ≡ negsuc 0) ⊎ ((pos 3 ≡ pos (count busy)) × IsInside (count busy) added.tables)
unfolding added server_add_socket server_resize round_up server_listen_enable as_int
server_add_socket-IsInside_example =
    server_add_socket-IsInside system context times five upcalls 8 (pos 3) busy added busy-IsSized
      (omega arith) refl

closers : Closers system context (λ w. w.closed)
closers = record { close = λ fd w. refl; on_close = tt; on_listener_close = tt }

server_free-closes_example :
    (w : Trace) × (server_free system context busy ≡ done w) × (w.closed ≡ 5 ∷ 6 ∷ 3 ∷ [])
server_free-closes_example = server_free-closes system context (λ w. w.closed) closers busy
