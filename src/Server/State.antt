-- ===== src/Server/State.antt =====
-- The state of daemon/server.c, and what it asks of the system and of its callbacks.
use infod.Prelude.{ℕ, ℤ, Bool, false, Option, List, length}

abbrev pub pollin : ℕ
pollin = 1

abbrev pub o_nonblock : ℕ
o_nonblock = 2048

-- INCREMENT
abbrev pub increment : ℕ
increment = 16

-- The sizes of struct server_socket and struct pollfd.
abbrev pub socket_size : ℕ
socket_size = 24

abbrev pub pollfd_size : ℕ
pollfd_size = 8

-- The elements of pollfd[] and of socket[] at one index. A pointer is a number, NULL is 0.
pub record Socket : Type 0 where
  pub fd : ℕ
  pub events : ℕ
  pub revents : ℕ
  pub client : ℕ
  pub listener : ℕ
  pub is_listener : Bool

-- `n` is the length of `sockets`. `socket_cap` and `pollfd_cap` are the elements that the two arrays
-- have room for.
pub record Tables : Type 0 where
  pub sockets : List Socket
  pub nmax : ℕ
  pub socket_cap : ℕ
  pub pollfd_cap : ℕ

-- `world` is all the rest: the system and the data of the callbacks.
pub record Server (W : Type 0) : Type 0 where
  pub tables : Tables
  pub world : W

abbrev pub count : {W : Type 0} → Server W → ℕ
count s = length s.tables.sockets

-- The calls of on_error(), without the texts of errno and of the listener.
pub data Message : Type 0 where
  realloc_failed : ℕ → Message
  close_failed : ℕ → ℕ → Message
  accept_failed : ℕ → Message
  on_ready_failed : ℕ → ℕ → Message

-- The system calls; none and false stand for -1. `poll` gives its result and the revents of each
-- socket, from the fds and events and a timeout.
pub record System (W : Type 0) : Type 0 where
  pub realloc : ℕ → W → Bool × W
  pub getfl : ℕ → W → Option ℕ
  pub setfl : ℕ → ℕ → W → W
  pub accept : ℕ → W → Option ℕ × W
  pub close : ℕ → W → Bool × W
  pub poll : List (ℕ × ℕ) → ℤ → W → ℤ × (List ℕ × W)
  pub stderr : Message → W → W

-- A callback gets the server, and may change it; on_error only logs.
pub record Context (W : Type 0) : Type 0 where
  pub max_sockets : ℕ
  pub on_accept : Option (ℕ → ℕ → Server W → ℕ × Server W)
  pub on_ready : ℕ → ℕ → Server W → ℤ × Server W
  pub on_close : Option (ℕ → ℕ → Server W → Server W)
  pub on_listener_close : Option (ℕ → Server W → Server W)
  pub on_error : Option (Message → W → W)

abbrev pub with_sockets : {W : Type 0} → List Socket → Server W → Server W
with_sockets es s = record s { tables = record s.tables { sockets = es } }

abbrev pub set_world : {W : Type 0} → W → Server W → Server W
set_world w s = record s { world = w }

-- A socket as server_add_socket() makes it.
abbrev pub fresh_socket : ℕ → Socket
fresh_socket fd = record {
  fd = fd;
  events = pollin;
  revents = 0;
  client = 0;
  listener = 0;
  is_listener = false;
}
