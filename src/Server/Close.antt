-- ===== src/Server/Close.antt =====
-- close_delete_socket() of daemon/server.c.
use infod.Prelude.{
  ℕ, suc, ◌+◌, ◌-◌, ◌^◌, ◌≤◌, ◌<◌, ◌≡◌, refl, sym, true, false, not, ◌&&◌, Option, none, some, List,
  map, ◌==◌, if◌then◌else◌, length, get_elem?, arith, Bool-cases, inl, inr, ap, ◌∙◌,
}
use mathlib.Core.Path.{subst}
use infod.Prelude.Ends.{Run, done, ◌>>=◌}
use infod.Server.State.{Socket, Server, count, Message, System, Context, with_sockets, close_failed}
use infod.Server.{
  on_error, round_up, server_resize, close_fd, call_on_close, pack_last, let_in, close_and_pack,
  close_delete_at, close_delete_socket, listen_enable, server_listen_enable,
}
use infod.Server.Weigh.{moved, length-moved, length-map, get_elem?-some, get_elem?-lt}
use infod.Server.Laws.{Upcalls, OnSome, IsSized}
use infod.Server.Resize.{server_resize-IsResized, round_up_mono}

-- The listeners are enabled when the number of sockets falls below the limit.
abbrev pub reopened : ℕ → List Socket → List Socket
reopened max es =
    if not (max == 0) && (length es == max - 1) then map (listen_enable true) es else es

pub length-reopened : (max : ℕ) (es : List Socket) → length (reopened max es) ≡ length es
length-reopened max es = elim (Bool-cases (not (max == 0) && (length es == max - 1))) [
  | inl e ↦ rw e (length-map (listen_enable true) es)
  | inr e ↦ rw e refl
]

module _ {W : Type 0} (os : System W) (context : Context W) (log : W → ℕ) (tally : ℕ → ℕ) where
  -- The same tables, and the same log.
  abbrev pub IsSame : Server W → Server W → Type 0
  IsSame s s' = (s'.tables ≡ s.tables) × (log s'.world ≡ log s.world)

  -- The socket at `i` is gone.
  pub record IsClosed (i : ℕ) (s s' : Server W) : Type 0 where
    pub last : Socket
    pub is_last : get_elem? s.tables.sockets (count s - 1) ≡ some last
    pub sockets : s'.tables.sockets ≡ reopened context.max_sockets (moved i last s.tables.sockets)
    pub sized : IsSized s'.tables
    pub world : log s'.world ≡ log s.world

  module _ (u : Upcalls os context log tally) where
    pub close_fd-IsSame :
        (fd : ℕ) (m : Message) (s : Server W) → IsSame s (close_fd os context fd m s)
    unfolding close_fd on_error
    close_fd-IsSame fd m s = elim (Bool-cases (os.close fd s.world).0) [
      | inl e ↦ rw e (refl, u.close fd s.world)
      | inr e ↦ rw e (refl, u.error m _ ∙ u.close fd s.world)
    ]

    call_on_close-IsSame :
        (f : Option (ℕ → ℕ → Server W → Server W)) (client listener : ℕ) (s : Server W)
        → OnSome (λ g. (client listener : ℕ) (s : Server W) → IsSame s (g client listener s)) f
        → IsSame s (call_on_close os context f client listener s)
    call_on_close-IsSame none client listener s h = (refl, refl)
    call_on_close-IsSame (some f) client listener s h = h client listener s

    let_in-same :
        (s : Server W)
        → let_in os context s ≡ with_sockets (reopened context.max_sockets s.tables.sockets) s
    unfolding server_listen_enable
    let_in-same s =
        elim (Bool-cases (not (context.max_sockets == 0) && (count s == context.max_sockets - 1))) [
          | inl e ↦ rw e refl
          | inr e ↦ rw e refl
        ]

    -- server_resize() after one socket has gone.
    shrink :
        (n : ℕ) (s : Server W)
        → count s ≡ n
        → s.tables.nmax ≡ round_up (suc n)
        → s.tables.nmax ≤ s.tables.socket_cap
        → s.tables.nmax ≤ s.tables.pollfd_cap
        → n + 33 ≤ 2 ^ 32
        → (s' : Server W) × ((server_resize os context n s >>= λ r. done r.1) ≡ done s')
          × (s'.tables.sockets ≡ s.tables.sockets)
          × IsSized s'.tables
          × (log s'.world ≡ log s.world)
    shrink n s c e cs cp b =
        let (r, q, h) =
          server_resize-IsResized os context log tally u n (suc n) s e cs cp (omega arith)
            (omega arith) (omega arith) in
        let small = round_up_mono n (suc n) (omega arith) (omega arith) in
        let fits : r.1.tables.nmax ≡ round_up n = elim (Bool-cases r.0) [
          | inl t ↦ h.on_success t
          | inr f ↦ h.on_failure f (omega (arith, e, small))
        ] in
        (
          r.1,
          rw q refl,
          h.sockets,
          record {
            nmax = fits ∙ ap round_up (sym c ∙ ap length (sym h.sockets));
            sockets = h.socket_cap;
            pollfds = h.pollfd_cap;
          },
          h.world,
        )

    abbrev pack_rest : ℕ → ℕ → Server W → Run (Server W)
    pack_rest i n s = pack_last os context i n (get_elem? s.tables.sockets n) s >>= λ s'.
        server_resize os context (count s') (let_in os context s') >>= λ r. done r.1

    pack_lem :
        (i : ℕ) (z : Socket) (s : Server W)
        → 0 < count s
        → get_elem? s.tables.sockets (count s - 1) ≡ some z
        → IsSized s.tables
        → count s + 32 ≤ 2 ^ 32
        → (s' : Server W) × (pack_rest i (count s - 1) s ≡ done s') × IsClosed i s s'
    pack_lem i z s c at h b =
        let t = with_sockets (moved i z s.tables.sockets) s in
        let k : suc (count t) ≡ count s = omega (arith, length-moved i z s.tables.sockets, c) in
        let (s', e, sockets, sized, world) =
          shrink (count t) (with_sockets (reopened context.max_sockets t.tables.sockets) t)
            (length-reopened context.max_sockets t.tables.sockets) (h.nmax ∙ ap round_up (sym k))
            h.sockets h.pollfds (omega (arith, k)) in
        (
          s',
          ap
                (λ o. pack_last os context i (count s - 1) o s >>= λ s''.
                  server_resize os context (count s'') (let_in os context s'') >>= λ r. done r.1)
                at
              ∙ ap (λ t'. server_resize os context (count t) t' >>= λ r. done r.1) (let_in-same t)
              ∙ e,
          record { last = z; is_last = at; sockets = sockets; sized = sized; world = world },
        )

    at_client :
        (i : ℕ) (e : Socket) (s s' : Server W)
        → e.is_listener ≡ false
        → close_and_pack os context i (count s - 1) e s ≡ done s'
        → close_delete_at os context i (some e) s ≡ done s'
    at_client i e s s' c q = rw c q

    pub close_delete_socket-IsClosed :
        (i : ℕ) (e : Socket) (s : Server W)
        → get_elem? s.tables.sockets i ≡ some e
        → e.is_listener ≡ false
        → IsSized s.tables
        → count s + 32 ≤ 2 ^ 32
        → (s' : Server W) × (close_delete_socket os context i s ≡ done s') × IsClosed i s s'
    unfolding close_delete_socket
    close_delete_socket-IsClosed i e s at c h b =
        let lt = get_elem?-lt s.tables.sockets i e at in
        let z = get_elem?-some s.tables.sockets (count s - 1) (omega (arith, lt)) in
        let s1 = close_fd os context e.fd (close_failed e.listener e.fd) s in
        let s2 = call_on_close os context context.on_close e.client e.listener s1 in
        let a = close_fd-IsSame e.fd (close_failed e.listener e.fd) s in
        let a' = call_on_close-IsSame context.on_close e.client e.listener s1 u.on_close in
        let same : s2.tables ≡ s.tables = a'.0 ∙ a.0 in
        let (s', q, k) =
          pack_lem i z.0 s2 (subst (λ t. 0 < length t.sockets) (sym same) (omega (arith, lt)))
            (subst (λ t. get_elem? t.sockets (length t.sockets - 1) ≡ some z.0) (sym same) z.1)
            (subst IsSized (sym same) h)
            (subst (λ t. length t.sockets + 32 ≤ 2 ^ 32) (sym same) b) in
        (
          s',
          ap (λ o. close_delete_at os context i o s) at
              ∙ at_client i e s s' c
                  (subst (λ t. pack_rest i (length t.sockets - 1) s2 ≡ done s') same q),
          record {
            last = k.last;
            is_last =
                subst (λ t. get_elem? t.sockets (length t.sockets - 1) ≡ some k.last) same
                  k.is_last;
            sockets =
                subst
                  (λ t. s'.tables.sockets ≡ reopened context.max_sockets (moved i k.last t.sockets))
                  same k.sockets;
            sized = k.sized;
            world = k.world ∙ a'.1 ∙ a.1;
          },
        )
