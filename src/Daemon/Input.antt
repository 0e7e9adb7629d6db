-- ===== src/Daemon/Input.antt =====
-- on_app_input() of daemon/infod.c with the buffer of commands, and the coming and going of clients.
use infod.Prelude.{
  ℕ, zero, suc, ◌+◌, ◌-◌, ◌%◌, ◌^◌, pos, is_positive, Bool, true, false, not, Option, none, some,
  List, [], ◌∷◌, ◌++◌, leb, ◌==◌, if◌then◌else◌, length,
}
use infod.Proto.Base.{cmd_begin, cmd_commit, msg_eof, error_too_big}
use infod.Proto.Text.{codes}
use infod.Daemon.State.{
  Client, Bufcmd, State, Reply, replied, aborted, spins, max_bufcmds, with_client, set,
}
use infod.Daemon.Peer.{Peers}
use infod.Daemon.Store.{Stores}
use infod.Daemon.Handlers.{fail, fail_inside, dispatch}

-- REMOVE() from the list of clients.
unfoldable pub without : ℕ → List ℕ → List ℕ
without fd [] = []
without fd (i ∷ l) = let rest = without fd l in if i == fd then l else i ∷ rest

abbrev pub fresh : Client
fresh = record { nsubs = 0; nbufcmds = 0; begins = 0; subs = []; bufcmds = []; bufcmd_tail = 0 }

abbrev pub Call : Type 0 → Type 0 → Type 0
Call S W = ℕ → ℕ → List ℕ → State S W → Reply S W

-- The rest of the loop, if the call returned a positive number.
unfoldable pub and_on : {S W : Type 0} → Reply S W → (State S W → Reply S W) → Reply S W
and_on (replied n d) k = if is_positive n then k d else replied n d
and_on aborted k = aborted
and_on spins k = spins

module _ {S W : Type 0} (stores : Stores S) (peers : Peers W) (can_alloc : ℕ → Bool) where
  -- `while ((bcmd = client->bufcmds)) { ... }`. No call adds to the list, so that its length is
  -- fuel enough.
  unfoldable pub playback : ℕ → Call S W → ℕ → State S W → Reply S W
  unfolding and_on
  playback zero input fd d = elim (d.clients fd).bufcmds [ [] ↦ replied (pos 1) d | _ ∷ _ ↦ spins ]
  playback (suc fuel) input fd d = elim (d.clients fd).bufcmds [
    | [] ↦ replied (pos 1) d
    | b ∷ l ↦
        and_on (input fd b.msg b.body (with_client fd (record (d.clients fd) { bufcmds = l }) d))
          (playback fuel input fd)
  ]

  -- APPEND() calls abort() when something stands behind the tail.
  unfoldable pub append_command : ℕ → Bufcmd → State S W → Reply S W
  append_command fd b d =
      let c = d.clients fd in
      if c.bufcmd_tail == length c.bufcmds
      then replied (pos 1) (
          with_client fd
            (record c { bufcmds = c.bufcmds ++ (b ∷ []); bufcmd_tail = c.bufcmd_tail + 1 }) d)
      else aborted

  -- sizeof (struct bufcmd) is 24. `begins` is an unsigned int.
  unfoldable pub buffer_command : Call S W → ℕ → ℕ → List ℕ → State S W → Reply S W
  unfolding playback append_command
  buffer_command input fd msg body d =
      let c = d.clients fd in
      if msg == cmd_begin
      then replied (pos 1) (with_client fd (record c { begins = (c.begins + 1) % 2 ^ 32 }) d)
      else if msg == cmd_commit
      then (let left = (c.begins + 2 ^ 32 - 1) % 2 ^ 32 in
          let d' = with_client fd (record c { begins = left }) d in
          if left == 0 then playback (length c.bufcmds) input fd d' else replied (pos 1) d')
      else if leb max_bufcmds c.nbufcmds
      then fail stores peers can_alloc fd error_too_big (codes "commit buffer overflow") d
      else if not (can_alloc (24 + length body + 1))
      then fail_inside stores peers can_alloc fd (codes "begin: ") d
      else append_command fd (record { msg = msg; body = body }) d

  -- on_app_input() with `depth` nested calls left.
  unfoldable pub input_within : ℕ → Call S W
  unfolding buffer_command
  input_within zero fd msg body d = spins
  input_within (suc depth) fd msg body d =
      if msg == msg_eof
      then replied (pos 0) d
      else if (d.clients fd).begins == 0
      then dispatch stores peers can_alloc fd msg body d
      else buffer_command (input_within depth) fd msg body d

  -- The calls that play back a buffer run with no BEGIN open, and make no calls of their own.
  unfoldable pub on_app_input : Call S W
  unfolding input_within dispatch
  on_app_input fd msg body d = input_within 2 fd msg body d

  -- sizeof (struct client) is 80. Without memory the connection is shut down and has no record.
  unfoldable pub client_new : ℕ → W → Option W
  client_new fd w = if can_alloc 80 then peers.proto_new fd w else none

  abbrev pub add_client : Bool → ℕ → State S W → Option W → Bool × State S W
  add_client is_unix fd d none = (false, record d { world = peers.shutdown_read fd d.world })
  add_client is_unix fd d (some w) = (
    true,
    record d {
      clients = set d.clients fd fresh;
      all_clients = fd ∷ d.all_clients;
      world = if is_unix then peers.proto_set_framed fd w else w;
    },
  )

  unfoldable pub on_net_accept : Bool → ℕ → State S W → Bool × State S W
  unfolding client_new
  on_net_accept is_unix fd d = add_client is_unix fd d (client_new fd d.world)

  unfoldable pub on_net_close : ℕ → State S W → State S W
  unfolding without
  on_net_close fd d = record d {
    all_clients = without fd d.all_clients;
    world = peers.proto_free fd d.world;
  }
