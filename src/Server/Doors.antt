-- ===== src/Server/Doors.antt =====
-- The listeners that daemon/server.c enables and disables, and the sums over the sockets when one is
-- added, removed or looked at.
use infod.Prelude.{
  ℕ, zero, suc, ◌+◌, ◌-◌, ◌≤◌, ◌<◌, ◌≡◌, ◌≢◌, ◌⊎◌, refl, sym, Bool, true, false, not, ◌&&◌, some,
  List, [], ◌∷◌, ◌++◌, map, ◌==◌, leb, if◌then◌else◌, length, get_elem?, set, take, arith,
  Bool-cases, inl, inr, ap, length-append, ◌∙◌,
}
use mathlib.Core.Path.{subst}
use infod.Server.State.{Socket, System, Context, fresh_socket}
use infod.Server.{listen_enable, assign}
use infod.Server.Weigh.{
  weigh, weigh-append, weigh-set, length-set, weigh-map-le, weigh-map, weigh-take-suc, take-set,
  get_elem?-lt, get_elem?-set, take-append, take-map, moved, length-moved, weigh-moved, take-moved,
}
use infod.Server.Laws.{
  ready, pending, open_door, shut_door, IsHeld, ready-listen_enable, pending-listen_enable,
  open_door-listen_enable, shut_door-listen_enable,
}
use infod.Server.Close.{reopened}
use infod.Server.Accept.{held_off, length-held_off, length-assign, IsAppended}

-- Of the first `i` sockets no more are ready, nor of all; the tally of the ready clients stays, and
-- the listeners are polled for as they should be.
pub record IsKept (max : ℕ) (tally : ℕ → ℕ) (i : ℕ) (es es' : List Socket) : Type 0 where
  pub quiet : weigh ready (take i es') ≤ weigh ready (take i es)
  pub ready_le : weigh ready es' ≤ weigh ready es
  pub tally_eq : weigh (pending tally) es' ≡ weigh (pending tally) es
  pub held : IsHeld max es → IsHeld max es'

abbrev doors : Bool → Bool → List Socket → List Socket
doors enable changed es = if changed then map (listen_enable enable) es else es

ready-doors : (b c : Bool) (es : List Socket) → weigh ready (doors b c es) ≤ weigh ready es
ready-doors b true es = weigh-map-le ready (listen_enable b) es (ready-listen_enable b)
ready-doors b false es = omega arith

ready-take-doors :
    (b c : Bool) (i : ℕ) (es : List Socket)
    → weigh ready (take i (doors b c es)) ≤ weigh ready (take i es)
ready-take-doors b true i es = rw (take-map i (listen_enable b) es) (ready-doors b true (take i es))
ready-take-doors b false i es = omega arith

pending-doors :
    (tally : ℕ → ℕ) (b c : Bool) (es : List Socket)
    → weigh (pending tally) (doors b c es) ≡ weigh (pending tally) es
pending-doors tally b true es =
    weigh-map (pending tally) (listen_enable b) es (pending-listen_enable tally b)
pending-doors tally b false es = refl

weigh-zero :
    (f : Socket → ℕ) (g : Socket → Socket) (es : List Socket)
    → ((e : Socket) → f (g e) ≡ 0)
    → weigh f (map g es) ≡ 0
weigh-zero f g [] h = refl
weigh-zero f g (e ∷ es) h = omega (arith, h e, weigh-zero f g es h)

-- From doors that need no change unless the limit is passed between `n` sockets and as many as `es`.
IsHeld-reopened :
    (max : ℕ) (es : List Socket)
    → (max ≢ 0 → max ≤ suc (length es) → weigh open_door es ≡ 0)
    → ((max ≡ 0) ⊎ (suc (length es) < max) → weigh shut_door es ≡ 0)
    → IsHeld max (reopened max es)
IsHeld-reopened max es a b = elim (Bool-cases (not (max == 0) && (length es == max - 1))) [
  | inl e ↦ rw e (record {
    held = λ z le. absurd (ground (arith, length-map-doors es));
    let_in = λ _. weigh-zero shut_door (listen_enable true) es shut_door-listen_enable;
  })
  | inr e ↦ rw e (record {
    held = λ z le. a z (omega (arith, le));
    let_in = λ o. elim o [ inl z ↦ b (inl z) | inr l ↦ b (inr (ground (arith, l, e))) ];
  })
]
  where
    length-map-doors : (es : List Socket) → length (map (listen_enable true) es) ≡ length es
    length-map-doors [] = refl
    length-map-doors (e ∷ es) = ap suc (length-map-doors es)

IsHeld-held_off :
    (max : ℕ) (es : List Socket)
    → (max ≢ 0 → max < length es → weigh open_door es ≡ 0)
    → ((max ≡ 0) ⊎ (length es < max) → weigh shut_door es ≡ 0)
    → IsHeld max (held_off max es)
IsHeld-held_off max es a b = elim (Bool-cases (not (max == 0) && leb max (length es))) [
  | inl e ↦ rw e (record {
    held = λ z le. weigh-zero open_door (listen_enable false) es open_door-listen_enable;
    let_in = λ o. absurd (ground (arith, o, e, length-held_off max es));
  })
  | inr e ↦ rw e (record { held = λ z le. absurd (ground (arith, z, le, e)); let_in = b })
]

-- One of them closed.
pub moved-IsKept :
    (max : ℕ) (tally : ℕ → ℕ) (i : ℕ) (e z : Socket) (es : List Socket)
    → get_elem? es i ≡ some e
    → get_elem? es (length es - 1) ≡ some z
    → e.is_listener ≡ false
    → e.revents ≡ 0
    → IsKept max tally i es (reopened max (moved i z es))
moved-IsKept max tally i e z es at l c q =
    let es' = moved i z es in
    let b = not (max == 0) && (length es' == max - 1) in
    let lt = get_elem?-lt es i e at in
    record {
      quiet = omega (arith, ready-take-doors true b i es', ap (weigh ready) (take-moved i z es lt));
      ready_le = omega (arith, ready-doors true b es', weigh-moved ready i e z es at l);
      tally_eq =
          omega (
            arith,
            pending-doors tally true b es',
            weigh-moved (pending tally) i e z es at l,
            idle,
          );
      held = λ h.
          IsHeld-reopened max es'
            (λ n le.
              omega
                (arith, h.held n (omega (arith, le, n_moved)), weigh-moved open_door i e z es at l))
            (λ o. omega (
              arith,
              h.let_in (elim o [ inl n ↦ inl n | inr g ↦ inr (omega (arith, g, n_moved)) ]),
              weigh-moved shut_door i e z es at l,
            ));
    }
  where
    idle : pending tally e ≡ 0
    idle = rw (c, q) refl

    n_moved : suc (length (moved i z es)) ≡ length es
    n_moved = omega (arith, length-moved i z es, get_elem?-lt es i e at)

-- One of them looked at, and its revents cleared.
pub record IsCleared (max : ℕ) (tally : ℕ → ℕ) (i : ℕ) (e : Socket) (es es' : List Socket)
    : Type 0 where
  pub quiet : weigh ready (take (suc i) es') ≤ weigh ready (take i es)
  pub ready_lt : weigh ready es' + 1 ≡ weigh ready es
  pub tally_eq : weigh (pending tally) es' + pending tally e ≡ weigh (pending tally) es
  pub held : IsHeld max es → IsHeld max es'

pub set-IsCleared :
    (max : ℕ) (tally : ℕ → ℕ) (i : ℕ) (e : Socket) (es : List Socket)
    → get_elem? es i ≡ some e
    → e.revents ≢ 0
    → IsCleared max tally i e es (set es i (record e { revents = 0 }))
set-IsCleared max tally i e es at n =
    let e' = record e { revents = 0 } in
    let lt = get_elem?-lt es i e at in
    let is_ready : ready e ≡ 1 = ground (arith, n) in
    let is_idle : pending tally e' ≡ 0 = ground arith in
    record {
      quiet = omega (
        arith,
        weigh-take-suc ready (set es i e') i e' (get_elem?-set es i e' lt),
        ap (weigh ready) (take-set es i e'),
      );
      ready_lt = omega (arith, weigh-set ready es i e e' at, is_ready);
      tally_eq = omega (arith, weigh-set (pending tally) es i e e' at, is_idle);
      held = λ h. record {
        held = λ z le.
            let lower_nmax : open_door e' ≤ open_door e = ground arith in
            omega (
              arith,
              h.held z (subst (λ m. max ≤ m) (length-set es i e') le),
              weigh-set open_door es i e e' at,
              lower_nmax,
            );
        let_in = λ o. omega (
          arith,
          h.let_in (subst (λ m. (max ≡ 0) ⊎ (m < max)) (length-set es i e') o),
          weigh-set shut_door es i e e' at,
        );
      };
    }

-- An assignment of a client to an fd is no change to a weight that does not read it.
weigh-assign :
    (f : Socket → ℕ) (fd client listener : ℕ) (es : List Socket)
    → ((e : Socket) (c l : ℕ) → f (record e { client = c; listener = l }) ≡ f e)
    → weigh f (assign fd client listener es) ≡ weigh f es
unfolding assign
weigh-assign f fd client listener [] h = refl
weigh-assign f fd client listener (e ∷ es) h = elim (Bool-cases (e.fd == fd)) [
  | inl k ↦ rw k (omega (arith, h e client listener))
  | inr k ↦ rw k (omega (arith, weigh-assign f fd client listener es h))
]

weigh-take-assign :
    (f : Socket → ℕ) (i fd client listener : ℕ) (es : List Socket)
    → ((e : Socket) (c l : ℕ) → f (record e { client = c; listener = l }) ≡ f e)
    → weigh f (take i (assign fd client listener es)) ≡ weigh f (take i es)
unfolding assign
weigh-take-assign f zero fd client listener es h = refl
weigh-take-assign f (suc i) fd client listener [] h = refl
weigh-take-assign f (suc i) fd client listener (e ∷ es) h = elim (Bool-cases (e.fd == fd)) [
  | inl k ↦ rw k (omega (arith, h e client listener))
  | inr k ↦ rw k (omega (arith, weigh-take-assign f i fd client listener es h))
]

IsKept-assign :
    (max : ℕ) (tally : ℕ → ℕ) (i fd client listener : ℕ) (es es' : List Socket)
    → IsKept max tally i es es'
    → IsKept max tally i es (assign fd client listener es')
IsKept-assign max tally i fd client listener es es' k = record {
  quiet = omega (arith, k.quiet, weigh-take-assign ready i fd client listener es' λ e c l. refl);
  ready_le = omega (arith, k.ready_le, weigh-assign ready fd client listener es' λ e c l. refl);
  tally_eq = weigh-assign (pending tally) fd client listener es' (λ e c l. refl) ∙ k.tally_eq;
  held = λ h.
      let n = length-assign fd client listener es' in
      let g = k.held h in
      record {
        held = λ z le.
            weigh-assign open_door fd client listener es' (λ e c l. refl)
            ∙ g.held z (subst (λ m. max ≤ m) n le);
        let_in = λ o.
            weigh-assign shut_door fd client listener es' (λ e c l. refl)
            ∙ g.let_in (subst (λ m. (max ≡ 0) ⊎ (m < max)) n o);
      };
}

-- A new client.
pub held_off-IsKept :
    (max : ℕ) (tally : ℕ → ℕ) (i fd : ℕ) (es : List Socket)
    → i ≤ length es
    → IsKept max tally i es (held_off max (es ++ fresh_socket fd ∷ []))
held_off-IsKept max tally i fd es l =
    let es' = es ++ fresh_socket fd ∷ [] in
    let b = not (max == 0) && leb max (length es') in
    let n = length-append es (fresh_socket fd ∷ []) in
    record {
      quiet = omega (
        arith,
        ready-take-doors false b i es',
        ap (weigh ready) (take-append i es (fresh_socket fd ∷ []) l),
      );
      ready_le =
          omega (arith, ready-doors false b es', weigh-append ready es (fresh_socket fd ∷ []));
      tally_eq = omega (
        arith,
        pending-doors tally false b es',
        weigh-append (pending tally) es (fresh_socket fd ∷ []),
      );
      held = λ h.
          IsHeld-held_off max es'
            (λ z le. omega (
              arith,
              h.held z (omega (arith, le, n)),
              weigh-append open_door es (fresh_socket fd ∷ []),
            ))
            (λ o. omega (
              arith,
              h.let_in (elim o [ inl z ↦ inl z | inr g ↦ inr (omega (arith, g, n)) ]),
              weigh-append shut_door es (fresh_socket fd ∷ []),
            ));
    }

pub appended-IsKept :
    {W : Type 0} (os : System W) (context : Context W) (log : W → ℕ) (tally : ℕ → ℕ)
    (i fd listener : ℕ) (es es' : List Socket)
    → i ≤ length es
    → IsAppended os context log tally fd listener es es'
    → IsKept context.max_sockets tally i es es'
appended-IsKept os context log tally i fd listener es es' l (inl e) =
    subst (IsKept context.max_sockets tally i es) (sym e)
      (held_off-IsKept context.max_sockets tally i fd es l)
appended-IsKept os context log tally i fd listener es es' l (inr (client, e)) =
    subst (IsKept context.max_sockets tally i es) (sym e) (
      IsKept-assign context.max_sockets tally i fd client listener es _
        (held_off-IsKept context.max_sockets tally i fd es l))
