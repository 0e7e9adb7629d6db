-- ===== src/Daemon/Invariant/Playback.antt =====
-- The loop over the held commands at COMMIT in daemon/infod.c ends, and keeps the records in order.
use infod.Prelude.{
  ℕ, zero, suc, ◌≤◌, ◌≡◌, refl, sym, ◌∙◌, ap, ℤ, pos, Bool, true, List, [], ◌∷◌, ◌==◌, length, All,
  arith, inl, inr, ◌⊎◌,
}
use mathlib.Core.Path.{subst}
use infod.Daemon.State.{Client, Bufcmd, State, replied, set-same, with_client}
use infod.Daemon.Peer.{Peers}
use infod.Daemon.Store.{Stores}
use infod.Daemon.Input.{Call, and_on, playback, input_within}
use infod.Daemon.Invariant.{HasSubs, SameBuffer, Touches, Touches-same, Kept, dispatch-Kept}
use infod.Daemon.Invariant.Order.{IsHeld, IsClient, Carries, Touches-after, Touches-and_on}

List-cases : {A : Type 0} (l : List A) → (l ≡ []) ⊎ ((x : A) × (rest : List A) × (l ≡ x ∷ rest))
List-cases [] = inl refl
List-cases (x ∷ rest) = inr (x, rest, refl)

empty_list : {A : Type 0} (l : List A) → length l ≤ 0 → l ≡ []
empty_list [] h = refl
empty_list (x ∷ l) h = absurd (omega arith)

-- A client in the middle of a playback.
pub record IsPlaying (c : Client) : Type 0 where
  pub subs : HasSubs c
  pub uncounted : c.nbufcmds ≡ 0
  pub closed : c.begins ≡ 0
  pub held : All IsHeld c.bufcmds

pub playing : (c : Client) → IsPlaying c → IsClient c
playing c p = record {
  subs = p.subs;
  uncounted = p.uncounted;
  tail = λ n. absurd (n p.closed);
  held = p.held;
  word = omega (arith, p.closed);
}

pub kept-IsPlaying : (a b : Client) → SameBuffer a b → HasSubs b → IsPlaying a → IsPlaying b
kept-IsPlaying a b (n, o, l, t) h p = record {
  subs = h;
  uncounted = n ∙ p.uncounted;
  closed = o ∙ p.closed;
  held = subst (All IsHeld) (sym l) p.held;
}

pub kept_idle :
    (r : ℤ) (a b : Client)
    → SameBuffer a b
    → HasSubs b
    → a.begins ≡ 0
    → IsClient a
    → length a.bufcmds ≡ 0
    → Carries r b
kept_idle r a b (n, o, l, t) h z g i = (
  record {
    subs = h;
    uncounted = n ∙ g.uncounted;
    tail = λ busy. absurd (busy (o ∙ z));
    held = subst (All IsHeld) (sym l) g.held;
    word = omega (arith, o, z);
  },
  λ _ _. ap length l ∙ i,
)

module _ {S W : Type 0} (stores : Stores S) (peers : Peers W) (can_alloc : ℕ → Bool) where
  stopped :
      (d : State S W) (fd : ℕ)
      → IsPlaying (d.clients fd)
      → (d.clients fd).bufcmds ≡ []
      → Carries (pos 1) (d.clients fd)
  stopped d fd p e = (playing (d.clients fd) p, λ _ _. ap length e)

  input_playing :
      (depth : ℕ) (fd : ℕ) (b : Bufcmd) (d : State S W)
      → IsHeld b
      → IsPlaying (d.clients fd)
      → Touches d fd
          (Kept (d.clients fd))
          (input_within stores peers can_alloc (suc depth) fd b.msg b.body d)
  unfolding input_within
  input_playing depth fd b d (nb, nc, ne) p =
      let zero_begins : ((d.clients fd).begins == 0) ≡ true = ground (arith, p.closed) in
      rw ne (rw zero_begins (dispatch-Kept stores peers can_alloc fd b.msg b.body d nb p.subs))

  pub playback-nil :
      (fuel : ℕ) (input : Call S W) (fd : ℕ) (d : State S W)
      → (d.clients fd).bufcmds ≡ []
      → playback stores peers can_alloc fuel input fd d ≡ replied (pos 1) d
  unfolding playback
  playback-nil zero input fd d e = rw (e, playback) refl
  playback-nil (suc fuel) input fd d e = rw (e, playback) refl

  pub playback-cons :
      (fuel : ℕ) (input : Call S W) (fd : ℕ) (d : State S W) (b : Bufcmd) (l : List Bufcmd)
      → (d.clients fd).bufcmds ≡ b ∷ l
      → playback stores peers can_alloc (suc fuel) input fd d
        ≡ and_on
            (input fd b.msg b.body (with_client fd (record (d.clients fd) { bufcmds = l }) d))
            (playback stores peers can_alloc fuel input fd)
  unfolding playback
  playback-cons fuel input fd d b l e = rw (e, playback) refl

  pub playback-Carries :
      (fuel depth fd : ℕ) (d : State S W)
      → length (d.clients fd).bufcmds ≤ fuel
      → IsPlaying (d.clients fd)
      → Touches d fd Carries (
          playback stores peers can_alloc fuel
            (input_within stores peers can_alloc (suc depth))
            fd
            d)
  playback-Carries zero depth fd d l p =
      let e : (d.clients fd).bufcmds ≡ [] = empty_list (d.clients fd).bufcmds (omega arith) in
      rw (playback-nil zero _ fd d e)
        (Touches-same d d fd Carries (pos 1) refl refl (stopped d fd p e))
  playback-Carries (suc fuel) depth fd d l p = elim (List-cases (d.clients fd).bufcmds) [
    | inl e ↦
        rw (playback-nil (suc fuel) _ fd d e)
          (Touches-same d d fd Carries (pos 1) refl refl (stopped d fd p e))
    | inr (b, rest, e) ↦ rw (playback-cons fuel _ fd d b rest e) (
        let a = record (d.clients fd) { bufcmds = rest } in
        let d' = with_client fd a d in
        let same : d'.clients fd ≡ a = set-same d.clients fd a in
        let size : length (d.clients fd).bufcmds ≡ suc (length rest) = ap length e in
        let held : IsHeld b × All IsHeld rest = subst (All IsHeld) e p.held in
        let play : IsPlaying (d'.clients fd) = subst IsPlaying (sym same) (record {
          subs = record { counted = p.subs.counted; few = p.subs.few; valid = p.subs.valid };
          uncounted = p.uncounted;
          closed = p.closed;
          held = held.1;
        }) in
        Touches-after d d' fd a Carries _ (refl, refl)
          (Touches-and_on d' fd (Kept (d'.clients fd)) Carries
            (input_within stores peers can_alloc (suc depth) fd b.msg b.body d')
            (playback stores peers can_alloc fuel (input_within stores peers can_alloc (suc depth))
              fd)
            (input_playing depth fd b d' held.0 play)
            (λ n c no k. (
              playing c (kept-IsPlaying (d'.clients fd) c k.1 k.0 play),
              λ yes. absurd (ground (arith, yes, no)),
            ))
            (λ d'' n c e' k.
              let at : d''.clients fd ≡ c = ap (λ f. f fd) e'.0 ∙ set-same d'.clients fd c in
              playback-Carries fuel depth fd d''
                (omega (
                  arith,
                  l,
                  size,
                  ap length (ap (λ x. x.bufcmds) at),
                  ap length k.1.2,
                  ap length (ap (λ x. x.bufcmds) same),
                ))
                (subst IsPlaying (sym at) (kept-IsPlaying (d'.clients fd) c k.1 k.0 play)))))
  ]
