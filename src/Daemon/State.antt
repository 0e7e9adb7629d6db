-- ===== src/Daemon/State.antt =====
-- The state of daemon/infod.c: a record for each client and the list of all clients.
-- A client is known by its file descriptor. The store is of a type `S`, and `W` is the world: the
-- translators and the network.
use infod.Prelude.{
  ℕ, ◌≡◌, refl, ℤ, List, ◌==◌, if◌then◌else◌, arith, Bool-cases, inl, inr, ap, sym, ==_iff,
}
use mathlib.Core.Path.{fun_ext}

abbrev pub max_subs : ℕ
max_subs = 16

abbrev pub max_bufcmds : ℕ
max_bufcmds = 32

-- A command held back since BEGIN.
pub record Bufcmd : Type 0 where
  pub msg : ℕ
  pub body : List ℕ

-- `subs` holds the patterns, the latest first. `bufcmd_tail` is the place in `bufcmds` that the tail
-- pointer points behind; REMOVE() leaves the pointer as it was.
pub record Client : Type 0 where
  pub nsubs : ℕ
  pub nbufcmds : ℕ
  pub begins : ℕ
  pub subs : List (List ℕ)
  pub bufcmds : List Bufcmd
  pub bufcmd_tail : ℕ

pub record State (S W : Type 0) : Type 0 where
  pub clients : ℕ → Client
  pub all_clients : List ℕ
  pub store : S
  pub world : W

-- A callback returns a number. abort() is called by APPEND() on a tail that is no tail, and `spins`
-- is out of rounds.
pub data Reply (S W : Type 0) : Type 0 where
  replied : ℤ → State S W → Reply S W
  aborted : Reply S W
  spins : Reply S W

-- The records, with that of one client replaced.
unfoldable pub set : (ℕ → Client) → ℕ → Client → ℕ → Client
set clients fd c i = if i == fd then c else clients i

abbrev pub with_client : {S W : Type 0} → ℕ → Client → State S W → State S W
with_client fd c d = record d { clients = set d.clients fd c }

pub set-same : (clients : ℕ → Client) (fd : ℕ) (c : Client) → set clients fd c fd ≡ c
unfolding set
set-same clients fd c = ground arith

pub set-set :
    (clients : ℕ → Client) (fd : ℕ) (c c' : Client)
    → set (set clients fd c) fd c' ≡ set clients fd c'
unfolding set
set-set clients fd c c' = fun_ext (λ i. ground arith)

pub set-id : (clients : ℕ → Client) (fd : ℕ) → set clients fd (clients fd) ≡ clients
unfolding set
set-id clients fd = fun_ext (λ i. elim (Bool-cases (i == fd)) [
  | inl e ↦ rw e (ap clients (sym ((==_iff i fd).0 e)))
  | inr e ↦ rw e refl
])
