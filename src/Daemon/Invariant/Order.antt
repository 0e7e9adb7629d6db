-- ===== src/Daemon/Invariant/Order.antt =====
-- The record of a client of daemon/infod.c that is in order, and calls that keep one so.
use infod.Prelude.{
  ℕ, ◌^◌, ◌<◌, ◌≡◌, ◌∙◌, ap, ◌≢◌, ℤ, is_positive, true, false, ◌==◌, length, All, Bool-cases, inl,
  inr,
}
use infod.Proto.Base.{cmd_begin, cmd_commit, msg_eof}
use infod.Daemon.State.{Client, Bufcmd, State, Reply, replied, aborted, spins, set, set-set}
use infod.Daemon.Input.{and_on}
use infod.Daemon.Invariant.{HasSubs, Replaces, Touches}

-- A command that is held back.
abbrev pub IsHeld : Bufcmd → Type 0
IsHeld b =
    ((b.msg == cmd_begin) ≡ false) × ((b.msg == cmd_commit) ≡ false) × ((b.msg == msg_eof) ≡ false)

-- Inside BEGIN the tail pointer is at the end of the buffer. The commands in the buffer are not
-- counted: `nbufcmds` stays 0.
pub record IsClient (c : Client) : Type 0 where
  pub subs : HasSubs c
  pub uncounted : c.nbufcmds ≡ 0
  pub tail : c.begins ≢ 0 → c.bufcmd_tail ≡ length c.bufcmds
  pub held : All IsHeld c.bufcmds
  pub word : c.begins < 2 ^ 32

-- Outside of BEGIN the buffer is empty.
abbrev pub IsIdle : Client → Type 0
IsIdle c = c.begins ≡ 0 → length c.bufcmds ≡ 0

-- After a call that returned a positive number the client is as between two commands. After another
-- one, upon which the server drops the client, some of its buffer may be left.
abbrev pub Carries : ℤ → Client → Type 0
Carries n c = IsClient c × (is_positive n ≡ true → IsIdle c)

module _ {S W : Type 0} where
  pub Touches-after :
      (d d' : State S W) (fd : ℕ) (a : Client) (P : ℤ → Client → Type 0) (r : Reply S W)
      → Replaces d fd a d'
      → Touches d' fd P r
      → Touches d fd P r
  Touches-after d d' fd a P (replied n d'') e (c, e', h) =
      (c, (e'.0 ∙ ap (λ k. set k fd c) e.0 ∙ set-set d.clients fd a c, e'.1 ∙ e.1), h)
  Touches-after d d' fd a P aborted e h = h
  Touches-after d d' fd a P spins e h = h

  pub Touches-map :
      (d : State S W) (fd : ℕ) (P Q : ℤ → Client → Type 0) (r : Reply S W)
      → ((n : ℤ) (c : Client) → P n c → Q n c)
      → Touches d fd P r
      → Touches d fd Q r
  Touches-map d fd P Q (replied n d') f (c, e, h) = (c, e, f n c h)
  Touches-map d fd P Q aborted f h = h
  Touches-map d fd P Q spins f h = h

  pub Touches-and_on :
      (d : State S W) (fd : ℕ) (P Q : ℤ → Client → Type 0) (r : Reply S W)
      (k : State S W → Reply S W)
      → Touches d fd P r
      → ((n : ℤ) (c : Client) → is_positive n ≡ false → P n c → Q n c)
      → ((d' : State S W) (n : ℤ) (c : Client)
          → Replaces d fd c d'
          → P n c
          → Touches d' fd Q (k d'))
      → Touches d fd Q (and_on r k)
  unfolding and_on
  Touches-and_on d fd P Q (replied n d') k (c, e, h) f g = elim (Bool-cases (is_positive n)) [
    | inl p ↦ rw p (Touches-after d d' fd c Q (k d') e (g d' n c e h))
    | inr p ↦ rw p (c, e, f n c p h)
  ]
  Touches-and_on d fd P Q aborted k h f g = h
  Touches-and_on d fd P Q spins k h f g = h
