-- ===== src/Server.antt =====
-- daemon/server.c: the sockets that are polled, their tables, and the upcalls.
pub mod State
pub mod Weigh
pub mod Laws
pub mod Resize
pub mod Close
pub mod Accept
pub mod Doors
pub mod Poll
pub mod Serve
pub mod Listen
pub mod Steps
pub mod Free
mod Tests
use infod.Prelude.{
  ℕ, zero, suc, ◌+◌, ◌-◌, ◌*◌, ◌%◌, ◌^◌, bit_and, bit_or, ℤ, pos, negsuc, is_positive, Bool, true,
  false, not, ◌&&◌, ◌||◌, Option, none, some, List, [], ◌∷◌, ◌++◌, map, ◌==◌, ltb, leb,
  if◌then◌else◌, length, get_elem?, set, take,
}
use infod.Prelude.Ends.{Run, done, aborted, spins, ◌>>=◌}
use infod.Server.State.{
  pollin, o_nonblock, increment, socket_size, pollfd_size, Socket, Tables, Server, count, Message,
  realloc_failed, close_failed, accept_failed, on_ready_failed, System, Context, with_sockets,
  set_world, fresh_socket,
}

-- A number of sockets as an unsigned int.
abbrev pub uint : ℕ → ℕ
uint n = n % 2 ^ 32

-- An unsigned int as an int.
unfoldable pub as_int : ℕ → ℤ
as_int n = if ltb n (2 ^ 31) then pos n else negsuc (2 ^ 32 - 1 - n)

unfoldable pub round_up : ℕ → ℕ
round_up n = if n % increment == 0 then n else uint (n + (increment - n % increment))

abbrev pub enable_listener : Bool → Socket → Socket
enable_listener true e = record e { events = pollin }
enable_listener false e = record e { events = 0; revents = 0 }

abbrev pub listen_enable : Bool → Socket → Socket
listen_enable enable e = if e.is_listener then enable_listener enable e else e

unfoldable pub server_listen_enable : {W : Type 0} → Bool → Server W → Server W
server_listen_enable enable s = with_sockets (map (listen_enable enable) s.tables.sockets) s

-- For the first socket with this fd.
unfoldable pub assign : ℕ → ℕ → ℕ → List Socket → List Socket
assign fd client listener [] = []
assign fd client listener (e ∷ es) =
    if e.fd == fd
    then record e { client = client; listener = listener } ∷ es
    else e ∷ assign fd client listener es

unfoldable pub make_listener : ℕ → ℕ → List Socket → List Socket
make_listener listener i [] = []
make_listener listener zero (e ∷ es) =
    record e { client = 0; listener = listener; is_listener = true } ∷ es
make_listener listener (suc i) (e ∷ es) = e ∷ make_listener listener i es

abbrev pub fd_and_events : Socket → ℕ × ℕ
fd_and_events e = (e.fd, e.events)

-- The revents that poll() writes.
unfoldable pub with_revents : List Socket → List ℕ → List Socket
with_revents [] rs = []
with_revents (e ∷ es) [] = e ∷ es
with_revents (e ∷ es) (r ∷ rs) = record e { revents = r } ∷ with_revents es rs

unfoldable pub server_new : {W : Type 0} → W → Server W
server_new w = record {
  tables = record { sockets = []; nmax = 0; socket_cap = 0; pollfd_cap = 0 };
  world = w;
}

module _ {W : Type 0} (os : System W) (context : Context W) where
  abbrev pub report_error : Option (Message → W → W) → Message → W → W
  report_error none m w = os.stderr m w
  report_error (some f) m w = f m w

  unfoldable pub on_error : Message → Server W → Server W
  on_error m s = set_world (report_error context.on_error m s.world) s

  abbrev pub lower_nmax : ℕ → Server W → Server W
  lower_nmax n s =
      if ltb n s.tables.nmax then record s { tables = record s.tables { nmax = n } } else s

  abbrev pub realloc_pollfd : ℕ → Server W → Bool × Server W
  realloc_pollfd n s =
      let r = os.realloc (n * pollfd_size) s.world in
      if not (n == 0) && not r.0
      then (false, on_error (realloc_failed (n * pollfd_size)) (set_world r.1 s))
      else (true, record { tables = record s.tables { pollfd_cap = n; nmax = n }; world = r.1 })

  abbrev pub realloc_socket : ℕ → Server W → Bool × Server W
  realloc_socket n s =
      let r = os.realloc (n * socket_size) s.world in
      if not (n == 0) && not r.0
      then (false, on_error (realloc_failed (n * socket_size)) (set_world r.1 s))
      else realloc_pollfd n (record { tables = record s.tables { socket_cap = n }; world = r.1 })

  abbrev pub resize_tables : ℕ → Server W → Bool × Server W
  resize_tables n s =
      if (s.tables.nmax == n) || (uint (s.tables.nmax + (2 ^ 32 - 1)) == n)
      then (true, s)
      else realloc_socket n (lower_nmax n s)

  -- false is for -1.
  unfoldable pub server_resize : ℕ → Server W → Run (Bool × Server W)
  server_resize n s = if leb (count s) n then done (resize_tables (round_up n) s) else aborted

  abbrev pub add_nonblock : ℕ → Option ℕ → W → W
  add_nonblock fd none w = w
  add_nonblock fd (some val) w =
      if bit_and val o_nonblock == 0 then os.setfl fd (bit_or val o_nonblock) w else w

  -- The listeners are held off at the limit.
  abbrev pub hold_off : Server W → Server W
  hold_off s =
      if not (context.max_sockets == 0) && leb context.max_sockets (count s)
      then server_listen_enable false s
      else s

  abbrev pub append_socket : ℕ → Server W → Server W
  append_socket fd s = hold_off (
      with_sockets (s.tables.sockets ++ fresh_socket fd ∷ [])
        (set_world (add_nonblock fd (os.getfl fd s.world) s.world) s))

  -- The index of the new socket as an int, or -1.
  unfoldable pub server_add_socket : ℕ → Server W → Run (ℤ × Server W)
  server_add_socket fd s = server_resize (uint (count s + 1)) s >>= λ r.
      done (if r.0 then (as_int (count s), append_socket fd r.1) else (negsuc 0, r.1))

  unfoldable pub close_fd : ℕ → Message → Server W → Server W
  close_fd fd m s =
      let r = os.close fd s.world in if r.0 then set_world r.1 s else on_error m (set_world r.1 s)

  abbrev pub call_on_close : Option (ℕ → ℕ → Server W → Server W) → ℕ → ℕ → Server W → Server W
  call_on_close none client listener s = s
  call_on_close (some f) client listener s = f client listener s

  -- The last socket takes the place of the one at `i`.
  abbrev pub pack_last : ℕ → ℕ → Option Socket → Server W → Run (Server W)
  pack_last i last none s = aborted
  pack_last i last (some e) s = done (
      with_sockets
        (take (count s - 1) (if ltb i last then set s.tables.sockets i e else s.tables.sockets)) s)

  -- The listeners are enabled again below the limit.
  abbrev pub let_in : Server W → Server W
  let_in s =
      if not (context.max_sockets == 0) && (count s == context.max_sockets - 1)
      then server_listen_enable true s
      else s

  abbrev pub close_and_pack : ℕ → ℕ → Socket → Server W → Run (Server W)
  close_and_pack i last e s =
      let s' =
        call_on_close context.on_close e.client e.listener
          (close_fd e.fd (close_failed e.listener e.fd) s) in
      pack_last i last (get_elem? s'.tables.sockets last) s' >>= λ s''.
      server_resize (count s'') (let_in s'') >>= λ r. done r.1

  abbrev pub close_delete_at : ℕ → Option Socket → Server W → Run (Server W)
  close_delete_at i none s = aborted
  close_delete_at i (some e) s =
      if e.is_listener then aborted else close_and_pack i (count s - 1) e s

  unfoldable pub close_delete_socket : ℕ → Server W → Run (Server W)
  close_delete_socket i s = close_delete_at i (get_elem? s.tables.sockets i) s

  abbrev pub call_on_accept : Option (ℕ → ℕ → Server W → ℕ × Server W) → ℕ → ℕ → Server W → Server W
  call_on_accept none fd listener s = s
  call_on_accept (some f) fd listener s =
      let r = f fd listener s in with_sockets (assign fd r.0 listener r.1.tables.sockets) r.1

  -- `i == -1`
  abbrev pub accepted : ℕ → ℕ → ℤ × Server W → Bool × Server W
  accepted fd listener (negsuc zero, s) = (false, s)
  accepted fd listener (negsuc (suc n), s) = (true, call_on_accept context.on_accept fd listener s)
  accepted fd listener (pos i, s) = (true, call_on_accept context.on_accept fd listener s)

  -- true is for 0, and false and none are for -1.
  unfoldable pub server_add_fd : Option ℕ → ℕ → Server W → Run (Bool × Server W)
  server_add_fd none listener s = done (false, s)
  server_add_fd (some fd) listener s = server_add_socket fd s >>= λ r. done (accepted fd listener r)

  abbrev pub after_accept : ℕ → Option ℕ → Server W → Run (Server W)
  after_accept listener none s = done (on_error (accept_failed listener) s)
  after_accept listener (some fd) s = server_add_fd (some fd) listener s >>= λ r.
      done (if r.0 then r.1 else close_fd fd (close_failed listener fd) r.1)

  unfoldable pub server_accept : ℕ → ℕ → Server W → Run (Server W)
  server_accept listen_fd listener s =
      let r = os.accept listen_fd s.world in after_accept listener r.0 (set_world r.1 s)

  -- By the result of on_ready(): the next index, and the server.
  abbrev pub after_ready : ℕ → Socket → ℤ → Server W → Run (ℕ × Server W)
  after_ready i e (pos zero) s = close_delete_socket i s >>= λ s'. done (i, s')
  after_ready i e (pos (suc n)) s = done (suc i, s)
  after_ready i e (negsuc n) s =
      close_delete_socket i (on_error (on_ready_failed e.listener e.fd) s) >>= λ s'. done (i, s')

  abbrev pub handle_ready : ℕ → Socket → Server W → Run (ℕ × Server W)
  handle_ready i e s =
      if e.is_listener
      then (server_accept e.fd e.listener s >>= λ s'. done (suc i, s'))
      else (let r = context.on_ready e.client e.fd s in after_ready i e r.0 r.1)

  -- One round of the loop of server_poll(), at a socket.
  unfoldable pub round : ℕ → Socket → Server W → Run (ℕ × Server W)
  round i e s =
      if e.revents == 0
      then done (suc i, s)
      else handle_ready i e (with_sockets (set s.tables.sockets i (record e { revents = 0 })) s)

  abbrev pub round_at :
      ℕ → Option Socket → Server W → (ℕ → Server W → Run (Server W)) → Run (Server W)
  round_at i none s next = done s
  round_at i (some e) s next = round i e s >>= λ r. next r.0 r.1

  -- The loop of server_poll(), for a number of rounds.
  unfoldable pub poll_loop : ℕ → ℕ → Server W → Run (Server W)
  poll_loop zero i s = round_at i (get_elem? s.tables.sockets i) s (λ j s'. spins)
  poll_loop (suc fuel) i s =
      round_at i (get_elem? s.tables.sockets i) s (λ j s'. poll_loop fuel j s')

  unfoldable pub polled : ℤ × (List ℕ × W) → Server W → ℤ × Server W
  polled (n, (rs, w)) s = (n, with_sockets (with_revents s.tables.sockets rs) (set_world w s))

  abbrev pub after_poll : ℤ × Server W → Run (ℤ × Server W)
  after_poll (n, s) =
      if is_positive n then (poll_loop (2 * count s) 0 s >>= λ s'. done (n, s')) else done (n, s)

  unfoldable pub server_poll : ℤ → Server W → Run (ℤ × Server W)
  server_poll timeout s =
      if count s == 0
      then done (pos 0, s)
      else after_poll (polled (os.poll (map fd_and_events s.tables.sockets) timeout s.world) s)

  -- `i < 0`
  abbrev pub add_listener_at : ℕ → ℤ × Server W → Bool × Server W
  add_listener_at listener (negsuc n, s) = (false, s)
  add_listener_at listener (pos i, s) =
      (true, with_sockets (make_listener listener i s.tables.sockets) s)

  unfoldable pub server_add_listener : ℕ → ℕ → Server W → Run (Bool × Server W)
  server_add_listener fd listener s =
      server_add_socket fd s >>= λ r. done (add_listener_at listener r)

  abbrev pub call_on_listener_close : Option (ℕ → Server W → Server W) → ℕ → Server W → Server W
  call_on_listener_close none listener s = s
  call_on_listener_close (some f) listener s = f listener s

  -- close() with its result ignored.
  abbrev pub close_quietly : ℕ → Server W → Server W
  close_quietly fd s = set_world (os.close fd s.world).1 s

  abbrev pub free_client : Socket → Server W → Server W
  free_client e s =
      if e.is_listener
      then s
      else call_on_close context.on_close e.client e.listener (close_quietly e.fd s)

  abbrev pub free_listener : Socket → Server W → Server W
  free_listener e s =
      if e.is_listener
      then call_on_listener_close context.on_listener_close e.listener (close_quietly e.fd s)
      else s

  abbrev pub free_at :
      (Socket → Server W → Server W)
      → Option Socket
      → Server W
      → (Server W → Run (Server W))
      → Run (Server W)
  free_at free none s next = done s
  free_at free (some e) s next = next (free e s)

  -- A loop of server_free(): `k` sockets from `i`, as long as there are so many.
  unfoldable pub free_loop : (Socket → Server W → Server W) → ℕ → ℕ → Server W → Run (Server W)
  free_loop free zero i s = if ltb i (count s) then spins else done s
  free_loop free (suc k) i s =
      free_at free (get_elem? s.tables.sockets i) s (λ s'. free_loop free k (suc i) s')

  unfoldable pub server_free : Server W → Run W
  server_free s = free_loop free_client (count s) 0 s >>= λ s'.
      free_loop free_listener (count s') 0 s' >>= λ s''. done s''.world
