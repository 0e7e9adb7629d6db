-- ===== src/Daemon/Handlers.antt =====
-- The commands of daemon/infod.c outside of BEGIN, a handler for each.
use infod.Prelude.{
  ℕ, zero, suc, ◌+◌, ◌-◌, ◌/◌, ◌%◌, ◌^◌, ℤ, pos, negsuc, is_failure, Bool, true, false, not, ◌&&◌,
  ◌||◌, Option, none, some, List, [], ◌∷◌, ◌++◌, ltb, ◌==◌, if◌then◌else◌, length, take,
}
use infod.Match.{match, match_isvalid, match_result}
use infod.Proto.Base.{
  cmd_hello, cmd_sub, cmd_unsub, cmd_read, cmd_write, cmd_begin, cmd_commit, cmd_ping, msg_version,
  msg_info, msg_pong, error_bad_msg, error_bad_arg, error_too_big, error_bad_seq, error_internal,
}
use infod.Proto.Format.{Arg, int, ptr}
use infod.Proto.Text.{codes}
use infod.Daemon.State.{Client, State, Reply, replied, max_subs, with_client}
use infod.Daemon.Peer.{Peers, sized_text, one_text, byte_text, proto_output_error}
use infod.Daemon.Store.{Stores}

unfoldable pub contains_nul : List ℕ → Bool
contains_nul [] = false
contains_nul (c ∷ s) = let rest = contains_nul s in if c == 0 then true else rest

-- Whether the byte before the first NUL is `!`, with the byte that comes before.
unfoldable pub ends_in_bang : ℕ → List ℕ → Bool
ends_in_bang prev [] = false
ends_in_bang prev (c ∷ s) = let rest = ends_in_bang c s in if c == 0 then prev == b'!' else rest

-- A NUL in the first place has no byte before it.
unfoldable pub is_ephemeral : List ℕ → Bool
unfolding ends_in_bang
is_ephemeral body = ends_in_bang 0 body

-- `memcmp(a, b, n) == 0` of texts of the same length.
unfoldable pub same_bytes : List ℕ → List ℕ → Bool
same_bytes [] [] = true
same_bytes (a ∷ s) (b ∷ t) = let rest = same_bytes s t in if a == b then rest else false
same_bytes _ _ = false

-- The subscriptions without the first that has the pattern, if there is one.
unfoldable pub find_and_remove : List ℕ → List (List ℕ) → Option (List (List ℕ))
unfolding same_bytes
find_and_remove pattern [] = none
find_and_remove pattern (s ∷ subs) =
    let later = find_and_remove pattern subs in
    if length s == length pattern && same_bytes pattern s
    then some subs
    else elim later [ none ↦ none | some l ↦ some (s ∷ l) ]

-- "%02x" of a byte.
abbrev pub hex_digit : ℕ → ℕ
hex_digit n = if ltb n 10 then b'0' + n else b'a' + (n - 10)

abbrev pub hex2 : ℕ → List ℕ
hex2 n = hex_digit (n / 16 % 16) ∷ hex_digit (n % 16) ∷ []

module _ {S W : Type 0} (stores : Stores S) (peers : Peers W) (can_alloc : ℕ → Bool) where
  abbrev pub reply : State S W → ℤ × W → Reply S W
  reply d (n, w) = replied n (record d { world = w })

  abbrev pub output : ℕ → ℕ → List ℕ → List Arg → State S W → Reply S W
  output fd msg fmt args d = reply d (peers.proto_output fd msg fmt args d.world)

  abbrev pub fail : ℕ → ℕ → List ℕ → State S W → Reply S W
  fail fd code text d = reply d (proto_output_error peers fd code text d.world)

  -- `what` and the text for errno
  abbrev pub fail_inside : ℕ → List ℕ → State S W → Reply S W
  fail_inside fd what d = fail fd error_internal (what ++ peers.strerror d.world) d

  -- The entries that match, until an output fails.
  unfoldable pub send_matching : ℕ → List ℕ → List (List ℕ) → W → ℤ × W
  send_matching fd pattern [] w = (pos 1, w)
  send_matching fd pattern (info ∷ l) w =
      if match_result (match pattern info)
      then (let (n, w') =
            peers.proto_output fd msg_info sized_text (int (length info) ∷ ptr info ∷ []) w in
          if is_failure n then (negsuc 0, w') else send_matching fd pattern l w')
      else send_matching fd pattern l w

  -- sizeof (struct subscription) is 24.
  unfoldable pub on_sub : ℕ → List ℕ → State S W → Reply S W
  unfolding send_matching contains_nul
  on_sub fd body d =
      let c = d.clients fd in
      if ltb max_subs c.nsubs
      then fail fd error_too_big (codes "sub: too many subscriptions") d
      else if contains_nul body || not (match_isvalid body)
      then fail fd error_bad_arg (codes "sub: invalid pattern") d
      else if not (can_alloc (24 + length body + 1))
      then fail_inside fd (codes "sub: ") d
      else reply (with_client fd (record c { subs = body ∷ c.subs; nsubs = c.nsubs + 1 }) d)
          (send_matching fd body (stores.infos d.store) d.world)

  -- `nsubs` is an unsigned int.
  abbrev pub drop_sub : ℕ → Client → State S W → Option (List (List ℕ)) → Reply S W
  drop_sub fd c d none = replied (pos 1) d
  drop_sub fd c d (some l) =
      replied (pos 1)
        (with_client fd (record c { subs = l; nsubs = (c.nsubs + 2 ^ 32 - 1) % 2 ^ 32 }) d)

  unfoldable pub on_unsub : ℕ → List ℕ → State S W → Reply S W
  unfolding find_and_remove
  on_unsub fd body d = let c = d.clients fd in drop_sub fd c d (find_and_remove body c.subs)

  abbrev pub found_entry : ℕ → List ℕ → State S W → Option (List ℕ) → Reply S W
  found_entry fd body d none = output fd msg_info one_text (ptr body ∷ []) d
  found_entry fd body d (some info) =
      output fd msg_info sized_text (int (length info) ∷ ptr info ∷ []) d

  unfoldable pub on_read : ℕ → List ℕ → State S W → Reply S W
  on_read fd body d =
      if contains_nul body
      then fail fd error_bad_arg (codes "read: invalid key") d
      else found_entry fd body d (stores.store_get d.store body)

  -- A client whose output fails is shut down, which makes the server close it.
  unfoldable pub inform : ℕ → List ℕ → W → W
  inform fd body w =
      let (n, w') =
        peers.proto_output fd msg_info sized_text (int (length body) ∷ ptr body ∷ []) w in
      if is_failure n then peers.shutdown_read fd w' else w'

  unfoldable pub notify_client : ℕ → List (List ℕ) → List ℕ → W → W
  unfolding inform
  notify_client fd [] body w = w
  notify_client fd (pattern ∷ subs) body w =
      notify_client fd subs body (if match_result (match pattern body) then inform fd body w else w)

  unfoldable pub notify_clients : (ℕ → Client) → List ℕ → List ℕ → W → W
  unfolding notify_client
  notify_clients clients [] body w = w
  notify_clients clients (fd ∷ l) body w =
      notify_clients clients l body (notify_client fd (clients fd).subs body w)

  -- Notify all subscribers.
  abbrev pub notify : List ℕ → State S W → Reply S W
  notify body d =
      replied (pos 1) (record d { world = notify_clients d.clients d.all_clients body d.world })

  -- What the store says: nothing has changed, it failed, or there is news.
  unfoldable pub after_store : ℕ → List ℕ → List ℕ → ℤ → State S W → Reply S W
  after_store fd what body (pos zero) d = replied (pos 1) d
  after_store fd what body (pos (suc n)) d = notify body d
  after_store fd what body (negsuc zero) d = fail_inside fd what d
  after_store fd what body (negsuc (suc n)) d = notify body d

  -- `keyvalue` and its size, a uint16_t.
  abbrev pub as_entry : List ℕ → List ℕ
  as_entry body = take (length body % 2 ^ 16) body

  unfoldable pub on_write : ℕ → List ℕ → State S W → Reply S W
  unfolding after_store notify_clients is_ephemeral
  on_write fd body d =
      if not (contains_nul body)
      then (let (n, s) = stores.store_del d.store body in
          after_store fd (codes "del: ") body n (record d { store = s }))
      else if is_ephemeral body
      then notify body d
      else (let (n, s) = stores.store_put d.store (as_entry body) in
          after_store fd (codes "write: ") body n (record d { store = s }))

  unfoldable pub on_begin : ℕ → State S W → Reply S W
  on_begin fd d =
      replied (pos 1) (with_client fd (record (d.clients fd) { bufcmd_tail = 0; begins = 1 }) d)

  -- The switch of on_app_input().
  unfoldable pub dispatch : ℕ → ℕ → List ℕ → State S W → Reply S W
  unfolding on_sub on_unsub on_read on_write on_begin
  dispatch fd msg body d =
      if msg == cmd_hello
      then output fd msg_version byte_text (int 0 ∷ ptr (codes "infod3") ∷ []) d
      else if msg == cmd_sub
      then on_sub fd body d
      else if msg == cmd_unsub
      then on_unsub fd body d
      else if msg == cmd_read
      then on_read fd body d
      else if msg == cmd_write
      then on_write fd body d
      else if msg == cmd_ping
      then output fd msg_pong sized_text (int (length body) ∷ ptr body ∷ []) d
      else if msg == cmd_begin
      then on_begin fd d
      else if msg == cmd_commit
      then fail fd error_bad_seq (codes "commit: no begin") d
      else fail fd error_bad_msg (codes "unexpected message " ++ hex2 msg) d
