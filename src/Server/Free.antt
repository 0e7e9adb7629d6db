-- ===== src/Server/Free.antt =====
-- server_free() of daemon/server.c.
use infod.Prelude.{
  ℕ, suc, ◌≡◌, refl, sym, false, Option, none, some, List, [], ◌∷◌, ◌++◌, ltb, if◌then◌else◌,
  length, get_elem?, arith, Bool-cases, inl, inr, ap, ◌∙◌, length-append,
}
use mathlib.Core.List.{append-nil, append_assoc}
use mathlib.Core.Path.{subst}
use infod.Prelude.Ends.{done, ◌>>=◌}
use infod.Server.State.{Socket, Server, count, System, Context}
use infod.Server.{
  call_on_close, call_on_listener_close, close_quietly, free_client, free_listener, free_at,
  free_loop, server_free,
}
use infod.Server.Laws.{OnSome}

-- `closed` lists the descriptors that were closed, and callbacks close none.
pub record Closers {W : Type 0} (os : System W) (context : Context W) (closed : W → List ℕ)
    : Type 0 where
  pub close : (fd : ℕ) (w : W) → closed (os.close fd w).1 ≡ closed w ++ fd ∷ []
  pub on_close :
      OnSome
        (λ f.
          (client listener : ℕ) (s : Server W)
          → ((f client listener s).tables ≡ s.tables)
            × (closed (f client listener s).world ≡ closed s.world))
        context.on_close
  pub on_listener_close :
      OnSome
        (λ f.
          (listener : ℕ) (s : Server W)
          → ((f listener s).tables ≡ s.tables) × (closed (f listener s).world ≡ closed s.world))
        context.on_listener_close

abbrev pub client_fd : Socket → List ℕ
client_fd e = if e.is_listener then [] else e.fd ∷ []

abbrev pub listener_fd : Socket → List ℕ
listener_fd e = if e.is_listener then e.fd ∷ [] else []

abbrev pub gather : (Socket → List ℕ) → List Socket → List ℕ
gather pick [] = []
gather pick (e ∷ es) = pick e ++ gather pick es

get_elem?-middle :
    (pre post : List Socket) (e : Socket) → get_elem? (pre ++ e ∷ post) (length pre) ≡ some e
get_elem?-middle [] post e = refl
get_elem?-middle (x ∷ pre) post e = get_elem?-middle pre post e

get_elem?-end : (pre : List Socket) → get_elem? pre (length pre) ≡ none
get_elem?-end [] = refl
get_elem?-end (x ∷ pre) = get_elem?-end pre

module _ {W : Type 0} (os : System W) (context : Context W) (closed : W → List ℕ) where
  -- The tables stay, and these descriptors are closed.
  abbrev Closes : List ℕ → Server W → Server W → Type 0
  Closes fds s s' = (s'.tables ≡ s.tables) × (closed s'.world ≡ closed s.world ++ fds)

  free_loop-Closes :
      (free : Socket → Server W → Server W) (pick : Socket → List ℕ) (pre post : List Socket)
      (s : Server W)
      → ((e : Socket) (t : Server W) → Closes (pick e) t (free e t))
      → s.tables.sockets ≡ pre ++ post
      → (s' : Server W) × (free_loop os context free (length post) (length pre) s ≡ done s')
        × Closes (gather pick post) s s'
  unfolding free_loop
  free_loop-Closes free pick pre [] s h e =
      let n : ltb (length pre) (count s) ≡ false =
        ground (arith, ap length e, length-append pre []) in
      (s, rw n refl, (refl, sym (append-nil (closed s.world))))
  free_loop-Closes free pick pre (x ∷ post) s h e =
      let t = free x s in
      let k = h x s in
      let (s', q, c) =
        free_loop-Closes free pick (pre ++ x ∷ []) post t h
          (ap (λ a. a.sockets) k.0 ∙ e ∙ sym (append_assoc pre (x ∷ []) post)) in
      let n : length (pre ++ x ∷ []) ≡ suc (length pre) =
        omega (arith, length-append pre (x ∷ [])) in
      let at : get_elem? s.tables.sockets (length pre) ≡ some x =
        ap (λ es. get_elem? es (length pre)) e ∙ get_elem?-middle pre post x in
      (
        s',
        ap
              (λ o.
                free_at os context free o s
                  (λ s'. free_loop os context free (length post) (suc (length pre)) s'))
              at
            ∙ subst (λ i. free_loop os context free (length post) i t ≡ done s') n q,
        (
          c.0 ∙ k.0,
          c.1
              ∙ ap (λ l. l ++ gather pick post) k.1
              ∙ append_assoc (closed s.world) (pick x) (gather pick post),
        ),
      )

  module _ (c : Closers os context closed) where
    free_client-Closes :
        (e : Socket) (s : Server W) → Closes (client_fd e) s (free_client os context e s)
    free_client-Closes e s = elim (Bool-cases e.is_listener) [
      | inl l ↦ rw l (refl, sym (append-nil (closed s.world)))
      | inr l ↦ rw l (call context.on_close c.on_close)
    ]
      where
        call :
            (f : Option (ℕ → ℕ → Server W → Server W))
            → OnSome
                (λ f.
                  (client listener : ℕ) (s : Server W)
                  → ((f client listener s).tables ≡ s.tables)
                    × (closed (f client listener s).world ≡ closed s.world))
                f
            → Closes
                (e.fd ∷ [])
                s
                (call_on_close os context f e.client e.listener (close_quietly os context e.fd s))
        call none h = (refl, c.close e.fd s.world)
        call (some f) h =
            let k = h e.client e.listener (close_quietly os context e.fd s) in
            (k.0, k.1 ∙ c.close e.fd s.world)

    free_listener-Closes :
        (e : Socket) (s : Server W) → Closes (listener_fd e) s (free_listener os context e s)
    free_listener-Closes e s = elim (Bool-cases e.is_listener) [
      | inl l ↦ rw l (call context.on_listener_close c.on_listener_close)
      | inr l ↦ rw l (refl, sym (append-nil (closed s.world)))
    ]
      where
        call :
            (f : Option (ℕ → Server W → Server W))
            → OnSome
                (λ f.
                  (listener : ℕ) (s : Server W)
                  → ((f listener s).tables ≡ s.tables)
                    × (closed (f listener s).world ≡ closed s.world))
                f
            → Closes
                (e.fd ∷ [])
                s
                (call_on_listener_close os context f e.listener (close_quietly os context e.fd s))
        call none h = (refl, c.close e.fd s.world)
        call (some f) h =
            let k = h e.listener (close_quietly os context e.fd s) in
            (k.0, k.1 ∙ c.close e.fd s.world)

    -- server_free() ends, and closes each socket of the server once: first the clients, then the
    -- listeners, in their order in the table.
    pub server_free-closes :
        (s : Server W)
        → (w : W) × (server_free os context s ≡ done w)
          × (closed w
              ≡ closed s.world
                ++ gather client_fd s.tables.sockets
                ++ gather listener_fd s.tables.sockets)
    unfolding server_free
    server_free-closes s =
        let (t, q, k) =
          free_loop-Closes (free_client os context) client_fd [] s.tables.sockets s
            free_client-Closes refl in
        let (t', q', k') =
          free_loop-Closes (free_listener os context) listener_fd [] t.tables.sockets t
            free_listener-Closes refl in
        (
          t'.world,
          ap
                (λ o. o >>= λ s'.
                  free_loop os context (free_listener os context) (count s') 0 s' >>= λ s''.
                  done s''.world)
                q
              ∙ ap (λ o. o >>= λ s''. done s''.world) q',
          k'.1
              ∙ ap (λ l. l ++ gather listener_fd t.tables.sockets) k.1
              ∙ ap
                  (λ x.
                    closed s.world
                    ++ gather client_fd s.tables.sockets
                    ++ gather listener_fd x.sockets)
                  k.0,
        )
