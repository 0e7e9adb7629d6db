-- ===== src/Daemon/Run.antt =====
-- The daemon at work: clients that connect, send messages and go, as steps on the state of
-- daemon/infod.c.
use infod.Prelude.{
  ℕ, ◌+◌, ◌^◌, ◌<◌, ◌≡◌, ◌≢◌, refl, sym, ℤ, is_positive, Bool, true, false, Option, none, some,
  List, [], ◌∷◌, ◌==◌, ==_iff, if◌then◌else◌, All, arith, Bool-cases, inl, inr, ◌⊎◌,
}
use mathlib.Core.Path.{subst}
use infod.Daemon.State.{Client, State, replied, set, set-same}
use infod.Daemon.Peer.{Peers}
use infod.Daemon.Store.{Stores}
use infod.Daemon.Input.{
  fresh, client_new, on_app_input, add_client, on_net_accept, on_net_close, without,
}
use infod.Daemon.Invariant.{Touches}
use infod.Daemon.Invariant.Order.{IsClient, IsIdle, Carries}
use infod.Daemon.Invariant.Input.{on_app_input-Carries}

abbrev pub Member : ℕ → List ℕ → Type 0
Member fd [] = ⊥
Member fd (i ∷ l) = (i ≡ fd) ⊎ Member fd l

abbrev pub IsAbsent : ℕ → List ℕ → Type 0
IsAbsent fd l = All (λ i. i ≢ fd) l

abbrev pub IsDistinct : List ℕ → Type 0
IsDistinct [] = Unit
IsDistinct (i ∷ l) = IsAbsent i l × IsDistinct l

module _ {S W : Type 0} (stores : Stores S) (peers : Peers W) (can_alloc : ℕ → Bool) where
  -- A new connection has the number of no other. A run stops where client_new() fails: the server has
  -- then a socket with no client, and on_net_ready() would follow the NULL. A message is taken from a client with fewer than
  -- 2^32 - 1 open BEGINs. A client is dropped upon a result that is not positive, and when the server
  -- closes it.
  pub data Runs : State S W → State S W → Type 0 where
    stay : {d : State S W} → Runs d d
    connect :
        {d e : State S W} (is_unix : Bool) (fd : ℕ)
        → IsAbsent fd d.all_clients
        → (on_net_accept stores peers can_alloc is_unix fd d).0 ≡ true
        → Runs (on_net_accept stores peers can_alloc is_unix fd d).1 e
        → Runs d e
    refuse :
        {d : State S W} (is_unix : Bool) (fd : ℕ)
        → IsAbsent fd d.all_clients
        → Runs d (on_net_accept stores peers can_alloc is_unix fd d).1
    message :
        {d e : State S W} (fd msg : ℕ) (body : List ℕ) (n : ℤ) (d' : State S W)
        → Member fd d.all_clients
        → (d.clients fd).begins + 1 < 2 ^ 32
        → on_app_input stores peers can_alloc fd msg body d ≡ replied n d'
        → Runs (if is_positive n then d' else on_net_close stores peers can_alloc fd d') e
        → Runs d e
    close :
        {d e : State S W} (fd : ℕ)
        → Member fd d.all_clients
        → Runs (on_net_close stores peers can_alloc fd d) e
        → Runs d e

-- The record is in order, and between two commands.
abbrev pub IsReady : Client → Type 0
IsReady c = IsClient c × IsIdle c

pub record IsServing {S W : Type 0} (d : State S W) : Type 0 where
  pub distinct : IsDistinct d.all_clients
  pub ready : All (λ fd. IsReady (d.clients fd)) d.all_clients

All-Member : (P : ℕ → Type 0) (fd : ℕ) (l : List ℕ) → All P l → Member fd l → P fd
All-Member P fd [] h m = elim m [ ]
All-Member P fd (i ∷ l) h m = elim m [ inl e ↦ subst P e h.0 | inr m' ↦ All-Member P fd l h.1 m' ]

All-set-absent :
    (P : Client → Type 0) (clients : ℕ → Client) (fd : ℕ) (c : Client) (l : List ℕ)
    → IsAbsent fd l
    → All (λ i. P (clients i)) l
    → All (λ i. P (set clients fd c i)) l
unfolding set
All-set-absent P clients fd c [] a h = tt
All-set-absent P clients fd c (i ∷ l) a h =
    let other : (i == fd) ≡ false = ground (arith, a.0) in
    (rw other h.0, All-set-absent P clients fd c l a.1 h.1)

All-set :
    (P : Client → Type 0) (clients : ℕ → Client) (fd : ℕ) (c : Client) (l : List ℕ)
    → P c
    → All (λ i. P (clients i)) l
    → All (λ i. P (set clients fd c i)) l
unfolding set
All-set P clients fd c [] a h = tt
All-set P clients fd c (i ∷ l) a h = (
  elim (Bool-cases (i == fd)) [ inl e ↦ rw e a | inr e ↦ rw e h.0 ],
  All-set P clients fd c l a h.1,
)

without-All : (P : ℕ → Type 0) (fd : ℕ) (l : List ℕ) → All P l → All P (without fd l)
unfolding without
without-All P fd [] h = tt
without-All P fd (i ∷ l) h = elim (Bool-cases (i == fd)) [
  | inl e ↦ rw e h.1
  | inr e ↦ rw e (h.0, without-All P fd l h.1)
]

without-IsDistinct : (fd : ℕ) (l : List ℕ) → IsDistinct l → IsDistinct (without fd l)
unfolding without
without-IsDistinct fd [] h = tt
without-IsDistinct fd (i ∷ l) h = elim (Bool-cases (i == fd)) [
  | inl e ↦ rw e h.1
  | inr e ↦ rw e (without-All (λ j. j ≢ i) fd l h.0, without-IsDistinct fd l h.1)
]

without-IsAbsent : (fd : ℕ) (l : List ℕ) → IsDistinct l → IsAbsent fd (without fd l)
unfolding without
without-IsAbsent fd [] h = tt
without-IsAbsent fd (i ∷ l) h = elim (Bool-cases (i == fd)) [
  | inl e ↦ rw e (subst (λ k. IsAbsent k l) ((==_iff i fd).0 e) h.0)
  | inr e ↦ rw e ((λ same. absurd (ground (arith, same, e))), without-IsAbsent fd l h.1)
]

fresh-IsReady : IsReady fresh
fresh-IsReady = (
  record {
    subs = record { counted = refl; few = omega arith; valid = tt };
    uncounted = refl;
    tail = λ n. refl;
    held = tt;
    word = omega arith;
  },
  λ z. refl,
)

module _ {S W : Type 0} (stores : Stores S) (peers : Peers W) (can_alloc : ℕ → Bool) where
  close-IsServing :
      (fd : ℕ) (d : State S W) → IsServing d → IsServing (on_net_close stores peers can_alloc fd d)
  unfolding on_net_close
  close-IsServing fd d h = record {
    distinct = without-IsDistinct fd d.all_clients h.distinct;
    ready = without-All (λ i. IsReady (d.clients i)) fd d.all_clients h.ready;
  }

  connect-IsServing :
      (is_unix : Bool) (fd : ℕ) (d : State S W)
      → IsAbsent fd d.all_clients
      → IsServing d
      → IsServing (on_net_accept stores peers can_alloc is_unix fd d).1
  unfolding on_net_accept
  connect-IsServing is_unix fd d a h = add (client_new stores peers can_alloc fd d.world)
    where
      add : (o : Option W) → IsServing (add_client stores peers can_alloc is_unix fd d o).1
      add none = record { distinct = h.distinct; ready = h.ready }
      add (some w) = record {
        distinct = (a, h.distinct);
        ready = (
          subst IsReady (sym (set-same d.clients fd fresh)) fresh-IsReady,
          All-set-absent IsReady d.clients fd fresh d.all_clients a h.ready,
        );
      }

  message-IsServing :
      (fd : ℕ) (n : ℤ) (d d' : State S W)
      → Touches d fd Carries (replied n d')
      → IsServing d
      → IsServing (if is_positive n then d' else on_net_close stores peers can_alloc fd d')
  message-IsServing fd n d d' (c, e, k) h = elim (Bool-cases (is_positive n)) [
    | inl p ↦ rw p (record {
      distinct = rw e.1 h.distinct;
      ready = rw (e.1, e.0) (All-set IsReady d.clients fd c d.all_clients (k.0, k.1 p) h.ready);
    })
    | inr p ↦ rw p (
        unfold on_net_close in
        record {
          distinct = rw e.1 (without-IsDistinct fd d.all_clients h.distinct);
          ready =
              rw (e.1, e.0)
                (All-set-absent IsReady d.clients fd c (without fd d.all_clients)
                  (without-IsAbsent fd d.all_clients h.distinct)
                  (without-All (λ i. IsReady (d.clients i)) fd d.all_clients h.ready));
        })
  ]

  -- From a daemon whose clients are in order, every state it reaches by clients that connect under
  -- numbers not in use, send messages with fewer than 2^32 - 1 BEGINs open, and go, up to a client for
  -- whom there is no memory, is in order: no file descriptor is listed twice, and each listed client's record
  -- is well formed, with the buffer empty outside of a BEGIN.
  pub Runs-IsServing :
      (d e : State S W) → Runs stores peers can_alloc d e → IsServing d → IsServing e
  Runs-IsServing d e stay h = h
  Runs-IsServing d e (connect is_unix fd a ok r) h =
      Runs-IsServing _ e r (connect-IsServing is_unix fd d a h)
  Runs-IsServing d e (refuse is_unix fd a) h = connect-IsServing is_unix fd d a h
  Runs-IsServing d e (message fd msg body n d' m room eq r) h =
      let k = All-Member (λ i. IsReady (d.clients i)) fd d.all_clients h.ready m in
      Runs-IsServing _ e r (
        message-IsServing fd n d d'
          (subst (Touches d fd Carries) eq
            (on_app_input-Carries stores peers can_alloc fd msg body d k.0 k.1 room))
          h)
  Runs-IsServing d e (close fd m r) h = Runs-IsServing _ e r (close-IsServing fd d h)
