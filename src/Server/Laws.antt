-- ===== src/Server/Laws.antt =====
-- What the theorems on daemon/server.c take from its callbacks and from the system, and the weights
-- of a socket that its invariants sum up.
use infod.Prelude.{
  ℕ, ℤ, ◌+◌, ◌≤◌, ◌<◌, ◌≡◌, ◌≢◌, ◌⊎◌, Bool, true, false, ◌&&◌, Option, none, some, List, ◌==◌,
  if◌then◌else◌, is_positive, All, [], ◌∷◌, length, arith, map,
}
use infod.Server.State.{Socket, Tables, Server, Message, System, Context}
use infod.Server.Weigh.{weigh}
use infod.Server.{fd_and_events, report_error, listen_enable, round_up}

abbrev pub OnSome : {A : Type 0} → (A → Type 0) → Option A → Type 0
OnSome P none = Unit
OnSome P (some f) = P f

-- Callbacks leave the tables of the server alone, as those of daemon/infod.c do. `log` is a
-- number that on_ready() raises, by the tally of its fd, and that nothing else changes.
pub record Upcalls {W : Type 0} (os : System W) (context : Context W) (log : W → ℕ) (tally : ℕ → ℕ)
    : Type 0 where
  pub realloc : (n : ℕ) (w : W) → log (os.realloc n w).1 ≡ log w
  pub setfl : (fd val : ℕ) (w : W) → log (os.setfl fd val w) ≡ log w
  pub accept : (fd : ℕ) (w : W) → log (os.accept fd w).1 ≡ log w
  pub close : (fd : ℕ) (w : W) → log (os.close fd w).1 ≡ log w
  pub poll : (fds : List (ℕ × ℕ)) (timeout : ℤ) (w : W) → log (os.poll fds timeout w).1.1 ≡ log w
  pub error : (m : Message) (w : W) → log (report_error os context context.on_error m w) ≡ log w
  pub on_accept :
      OnSome
        (λ f.
          (fd listener : ℕ) (s : Server W)
          → ((f fd listener s).1.tables ≡ s.tables) × (log (f fd listener s).1.world ≡ log s.world))
        context.on_accept
  pub on_close :
      OnSome
        (λ f.
          (client listener : ℕ) (s : Server W)
          → ((f client listener s).tables ≡ s.tables)
            × (log (f client listener s).world ≡ log s.world))
        context.on_close
  pub on_ready :
      (client fd : ℕ) (s : Server W)
      → ((context.on_ready client fd s).1.tables ≡ s.tables)
        × (log (context.on_ready client fd s).1.world ≡ log s.world + tally fd)

-- One for a socket that poll() found ready.
abbrev pub ready : Socket → ℕ
ready e = if e.revents == 0 then 0 else 1

-- The tally of a client that is ready.
abbrev pub pending : (ℕ → ℕ) → Socket → ℕ
pending tally e = if e.is_listener then 0 else if e.revents == 0 then 0 else tally e.fd

-- One for a listener that is polled for, or is ready.
abbrev pub open_door : Socket → ℕ
open_door e = if e.is_listener then (if (e.events == 0) && (e.revents == 0) then 0 else 1) else 0

-- One for a listener that is not polled for.
abbrev pub shut_door : Socket → ℕ
shut_door e = if e.is_listener then (if e.events == 0 then 1 else 0) else 0

-- The arrays hold the sockets: nmax is the number of sockets rounded up, and no more than there is
-- room for.
pub record IsSized (t : Tables) : Type 0 where
  pub nmax : t.nmax ≡ round_up (length t.sockets)
  pub sockets : t.nmax ≤ t.socket_cap
  pub pollfds : t.nmax ≤ t.pollfd_cap

-- Listeners are polled for below the limit, and not at it.
pub record IsHeld (max : ℕ) (es : List Socket) : Type 0 where
  pub held : max ≢ 0 → max ≤ length es → weigh open_door es ≡ 0
  pub let_in : (max ≡ 0) ⊎ (length es < max) → weigh shut_door es ≡ 0

pub ready-listen_enable : (b : Bool) (e : Socket) → ready (listen_enable b e) ≤ ready e
ready-listen_enable true e = ground arith
ready-listen_enable false e = ground arith

pub pending-listen_enable :
    (tally : ℕ → ℕ) (b : Bool) (e : Socket) → pending tally (listen_enable b e) ≡ pending tally e
pending-listen_enable tally true e = ground arith
pending-listen_enable tally false e = ground arith

pub open_door-listen_enable : (e : Socket) → open_door (listen_enable false e) ≡ 0
open_door-listen_enable e = ground arith

pub shut_door-listen_enable : (e : Socket) → shut_door (listen_enable true e) ≡ 0
shut_door-listen_enable e = ground arith

-- Nothing is reported of a socket that is polled for no events: it has no error and is not hung up,
-- which poll() would report all the same.
abbrev pub IsMasked : List (ℕ × ℕ) → List ℕ → Type 0
IsMasked [] rs = Unit
IsMasked (e ∷ es) [] = Unit
IsMasked (e ∷ es) (r ∷ rs) = (e.1 ≡ 0 → r ≡ 0) × IsMasked es rs

abbrev pub HasNoErrors : {W : Type 0} → System W → ℤ → Server W → Type 0
HasNoErrors os timeout s =
    let fds = map fd_and_events s.tables.sockets in IsMasked fds (os.poll fds timeout s.world).1.0

-- poll() with a result that is not positive reports nothing.
pub record IsPoll {W : Type 0} (os : System W) : Type 0 where
  pub idle :
      (fds : List (ℕ × ℕ)) (timeout : ℤ) (w : W)
      → is_positive (os.poll fds timeout w).0 ≡ false
      → All (λ r. r ≡ 0) (os.poll fds timeout w).1.0
