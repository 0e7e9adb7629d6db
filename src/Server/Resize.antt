-- ===== src/Server/Resize.antt =====
-- server_resize() of daemon/server.c.
use infod.Prelude.{
  ltb, ltb→lt, ==_iff, ℕ, ◌+◌, ◌-◌, ◌*◌, ◌%◌, ◌^◌, ◌≤◌, ◌<◌, ◌≡◌, refl, Bool, true, false, not,
  ◌&&◌, ◌==◌, arith, Bool-cases, inl, inr, ap, ◌∙◌,
}
use infod.Prelude.Ends.{done}
use infod.Server.State.{Message, Server, count, System, Context, socket_size, pollfd_size}
use infod.Server.{
  on_error, round_up, server_resize, resize_tables, realloc_socket, realloc_pollfd, lower_nmax,
  uint,
}
use infod.Server.Laws.{Upcalls}

pub round_up-le : (n : ℕ) → n + 16 ≤ 2 ^ 32 → n ≤ round_up n
unfolding round_up
round_up-le n h = ground arith

pub round_up-multiple : (n : ℕ) → n + 16 ≤ 2 ^ 32 → round_up n % 16 ≡ 0
unfolding round_up
round_up-multiple n h = ground arith

-- The least multiple of 16.
pub round_up-lt : (n : ℕ) → round_up n < n + 16
unfolding round_up
round_up-lt n = ground arith

pub round_up_mono : (n m : ℕ) → n ≤ m → m + 16 ≤ 2 ^ 32 → round_up n ≤ round_up m
unfolding round_up
round_up_mono n m l h = ground arith

module _ {W : Type 0} (os : System W) (context : Context W) (log : W → ℕ) (tally : ℕ → ℕ) where
  -- The sockets and the log stay; nmax is `m` if the result is true, else not above it nor raised.
  pub record IsResized (m : ℕ) (s : Server W) (r : Bool × Server W) : Type 0 where
    pub sockets : r.1.tables.sockets ≡ s.tables.sockets
    pub socket_cap : r.1.tables.nmax ≤ r.1.tables.socket_cap
    pub pollfd_cap : r.1.tables.nmax ≤ r.1.tables.pollfd_cap
    pub on_success : r.0 ≡ true → r.1.tables.nmax ≡ m
    pub on_failure : r.0 ≡ false → m ≤ s.tables.nmax → r.1.tables.nmax ≡ m
    pub on_growth : r.0 ≡ false → s.tables.nmax ≤ m → r.1.tables.nmax ≡ s.tables.nmax
    pub world : log r.1.world ≡ log s.world

  module _ (u : Upcalls os context log tally) where
    pub on_error-log :
        (m : Message) (s : Server W) → log (on_error os context m s).world ≡ log s.world
    unfolding on_error
    on_error-log m s = u.error m s.world

    realloc_pollfd-IsResized :
        (n : ℕ) (s : Server W)
        → s.tables.nmax ≤ n
        → n ≤ s.tables.socket_cap
        → s.tables.nmax ≤ s.tables.pollfd_cap
        → IsResized n s (realloc_pollfd os context n s)
    unfolding on_error
    realloc_pollfd-IsResized n s l c d =
        elim (Bool-cases (not (n == 0) && not (os.realloc (n * pollfd_size) s.world).0)) [
          | inl e ↦ rw e (record {
            sockets = refl;
            socket_cap = omega arith;
            pollfd_cap = d;
            on_success = λ h. ground arith;
            on_failure = λ h g. omega arith;
            on_growth = λ h g. refl;
            world = u.error _ _ ∙ u.realloc _ _;
          })
          | inr e ↦ rw e (record {
            sockets = refl;
            socket_cap = c;
            pollfd_cap = omega arith;
            on_success = λ h. refl;
            on_failure = λ h g. refl;
            on_growth = λ h g. ground arith;
            world = u.realloc _ _;
          })
        ]

    realloc_socket-IsResized :
        (n : ℕ) (s : Server W)
        → s.tables.nmax ≤ n
        → s.tables.nmax ≤ s.tables.socket_cap
        → s.tables.nmax ≤ s.tables.pollfd_cap
        → IsResized n s (realloc_socket os context n s)
    unfolding on_error
    realloc_socket-IsResized n s l c d =
        elim (Bool-cases (not (n == 0) && not (os.realloc (n * socket_size) s.world).0)) [
          | inl e ↦ rw e (record {
            sockets = refl;
            socket_cap = c;
            pollfd_cap = d;
            on_success = λ h. ground arith;
            on_failure = λ h g. omega arith;
            on_growth = λ h g. refl;
            world = u.error _ _ ∙ u.realloc _ _;
          })
          | inr e ↦ rw e (
              let r =
                realloc_pollfd-IsResized n
                  (record {
                    tables = record s.tables { socket_cap = n };
                    world = (os.realloc (n * socket_size) s.world).1;
                  })
                  l (omega arith) d in
              record {
                sockets = r.sockets;
                socket_cap = r.socket_cap;
                pollfd_cap = r.pollfd_cap;
                on_success = r.on_success;
                on_failure = r.on_failure;
                on_growth = r.on_growth;
                world = r.world ∙ u.realloc _ _;
              })
        ]

    lower_nmax-IsResized :
        (n : ℕ) (s : Server W)
        → s.tables.nmax ≤ s.tables.socket_cap
        → s.tables.nmax ≤ s.tables.pollfd_cap
        → IsResized n s (realloc_socket os context n (lower_nmax os context n s))
    lower_nmax-IsResized n s c d = elim (Bool-cases (ltb n s.tables.nmax)) [
      | inl e ↦ rw e (
          let lt = ltb→lt n s.tables.nmax e in
          let r =
            realloc_socket-IsResized n (record s { tables = record s.tables { nmax = n } })
              (omega arith) (omega (arith, lt)) (omega (arith, lt)) in
          record {
            sockets = r.sockets;
            socket_cap = r.socket_cap;
            pollfd_cap = r.pollfd_cap;
            on_success = r.on_success;
            on_failure = λ h g. r.on_failure h (omega arith);
            on_growth = λ h g. absurd (omega (arith, lt));
            world = r.world;
          })
      | inr e ↦ rw e (realloc_socket-IsResized n s (ground arith) c d)
    ]

    resize_tables-IsResized :
        (n : ℕ) (s : Server W)
        → s.tables.nmax ≤ s.tables.socket_cap
        → s.tables.nmax ≤ s.tables.pollfd_cap
        → s.tables.nmax + 16 ≤ 2 ^ 32
        → s.tables.nmax % 16 ≡ 0
        → n % 16 ≡ 0
        → IsResized n s (resize_tables os context n s)
    resize_tables-IsResized n s c d b m k = elim (Bool-cases (s.tables.nmax == n)) [
      | inl e ↦ rw e (
          let same = (==_iff s.tables.nmax n).0 e in
          record {
            sockets = refl;
            socket_cap = c;
            pollfd_cap = d;
            on_success = λ h. same;
            on_failure = λ h g. same;
            on_growth = λ h g. refl;
            world = refl;
          })
      | inr e ↦
          let other : (uint (s.tables.nmax + (2 ^ 32 - 1)) == n) ≡ false = ground arith in
          rw (e, other) (lower_nmax-IsResized n s c d)
    ]

    -- From tables that fit `k` sockets, for as many as there are or more.
    pub server_resize-IsResized :
        (n k : ℕ) (s : Server W)
        → s.tables.nmax ≡ round_up k
        → s.tables.nmax ≤ s.tables.socket_cap
        → s.tables.nmax ≤ s.tables.pollfd_cap
        → k + 32 ≤ 2 ^ 32
        → n + 16 ≤ 2 ^ 32
        → count s ≤ n
        → (r : Bool × Server W) × (server_resize os context n s ≡ done r)
          × IsResized (round_up n) s r
    unfolding server_resize
    server_resize-IsResized n k s e c d b b' l = (
      resize_tables os context (round_up n) s,
      ground arith,
      resize_tables-IsResized (round_up n) s c d (omega (arith, e, round_up-lt k, b))
          (ap (λ m. m % 16) e ∙ round_up-multiple k (omega arith)) (round_up-multiple n b'),
    )
