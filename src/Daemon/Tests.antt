-- ===== src/Daemon/Tests.antt =====
-- The theorems on daemon/infod.c at concrete inputs: a store in a list, and a log of the output.
use infod.Prelude.{
  ℕ, ◌≡◌, refl, ℤ, pos, Bool, true, false, Option, none, some, List, [], ◌∷◌, ◌++◌, if◌then◌else◌,
  length, All, arith, Bool-cases, inl, inr, ◌==◌,
}
use infod.Match.{cstr, match, match_isvalid, match_result}
use infod.Proto.Base.{cmd_sub, cmd_write, cmd_read, cmd_begin, cmd_commit, msg_info}
use infod.Proto.Format.{Arg, int, ptr}
use infod.Proto.Text.{codes}
use infod.Daemon.State.{Client, Bufcmd, State, replied, set, with_client}
use infod.Daemon.Peer.{Peers}
use infod.Daemon.Store.{Stores}
use infod.Daemon.Handlers.{
  contains_nul, same_bytes, on_sub, on_unsub, notify_clients, send_matching,
}
use infod.Daemon.Input.{fresh, on_app_input, on_net_accept}
use infod.Daemon.Invariant.{IsPattern, Touches}
use infod.Daemon.Invariant.Order.{IsClient, Carries}
use infod.Daemon.Invariant.Input.{on_app_input-Carries}
use infod.Daemon.Transaction.Commit.{inputs, waiting, perform, transaction}
use infod.Daemon.Subscribe.{audience, matching, Tells, Sends, notify_clients-Tells, on_unsub-of_sub}
use infod.Daemon.Run.{Runs, stay, connect, message, IsServing, Runs-IsServing}

abbrev Entries : Type 0
Entries = List (List ℕ)

unfoldable find : List ℕ → Entries → Option (List ℕ)
find key [] = none
find key (e ∷ s) = let rest = find key s in if same_bytes key (cstr e) then some e else rest

unfoldable erase : List ℕ → Entries → Entries
erase key [] = []
erase key (e ∷ s) = let rest = erase key s in if same_bytes key (cstr e) then rest else e ∷ rest

abbrev table : Stores Entries
table = record {
  store_get = λ s key. find key s;
  store_put = λ s e. (pos 1, e ∷ erase (cstr e) s);
  store_del = λ s key. (pos 1, erase key s);
  infos = λ s. s;
}

-- What each client has been sent, the latest first.
abbrev Log : Type 0
Log = List (ℕ × ℕ × List Arg)

abbrev log : Peers Log
log = record {
  proto_output = λ fd msg fmt args w. (pos 1, (fd, msg, args) ∷ w);
  is_text = λ fd w. false;
  proto_new = λ fd w. some w;
  proto_set_framed = λ fd w. w;
  proto_free = λ fd w. w;
  shutdown_read = λ fd w. w;
  strerror = λ w. [];
}

abbrev always : ℕ → Bool
always n = true

abbrev start : State Entries Log
start = record { clients = λ fd. fresh; all_clients = 4 ∷ 5 ∷ []; store = []; world = [] }

fresh-IsClient : IsClient fresh
fresh-IsClient = record {
  subs = record { counted = refl; few = omega arith; valid = tt };
  uncounted = refl;
  tail = λ n. refl;
  held = tt;
  word = omega arith;
}

abbrev kv : List ℕ
kv = codes "door" ++ (0 ∷ codes "open")

abbrev star : List ℕ
star = b'd' ∷ b'*' ∷ []

on_app_input-Carries_example :
    Touches start 4 Carries (on_app_input table log always 4 cmd_sub star start)
on_app_input-Carries_example =
    on_app_input-Carries table log always 4 cmd_sub star start fresh-IsClient (λ z. refl)
      (omega arith)

abbrev held : List Bufcmd
held = record { msg = cmd_write; body = kv } ∷ record { msg = cmd_read; body = codes "door" } ∷ []

transaction_example :
    (inputs table log always 4 (record { msg = cmd_begin; body = [] } ∷ held) start
      ≡ replied (pos 1) (waiting table log always 4 held start))
    × (on_app_input table log always 4 cmd_commit [] (waiting table log always 4 held start)
        ≡ perform table log always 4 (length held) held start)
transaction_example =
    transaction table log always 4 held [] [] start (λ n. refl)
      ((refl, refl, refl), ((refl, refl, refl), tt)) fresh-IsClient refl refl

-- Client 4 is subscribed to `d*` and to `*`.
abbrev subscribed : ℕ → Client
subscribed = set (λ fd. fresh) 4 (record fresh { nsubs = 2; subs = star ∷ (b'*' ∷ []) ∷ [] })

subscribed-IsPattern : (fd : ℕ) → All IsPattern (subscribed fd).subs
unfolding set match_isvalid contains_nul
subscribed-IsPattern fd = elim (Bool-cases (fd == 4)) [
  | inl e ↦ rw e (((refl, refl), ((refl, refl), tt)))
  | inr e ↦ rw e tt
]

notify_clients-Tells_example :
    Tells log kv
      (audience subscribed (4 ∷ 5 ∷ []) kv)
      []
      (notify_clients table log always subscribed (4 ∷ 5 ∷ []) kv [])
notify_clients-Tells_example =
    notify_clients-Tells table log always subscribed (4 ∷ 5 ∷ []) kv [] subscribed-IsPattern

told_twice :
    notify_clients table log always subscribed (4 ∷ 5 ∷ []) kv []
    ≡ (4, msg_info, int 9 ∷ ptr kv ∷ []) ∷ (4, msg_info, int 9 ∷ ptr kv ∷ []) ∷ []
unfolding notify_clients set match match_result
told_twice = refl

abbrev stored : State Entries Log
stored = record start { store = kv ∷ [] }

on_unsub-of_sub_example :
    (let subscribed = λ (w : Log).
        record (with_client 4 (record fresh { subs = star ∷ []; nsubs = 1 }) stored) {
          world = w;
        } in
      (r : ℤ × Log) × Sends log 4 (matching star (kv ∷ [])) [] r
      × (on_sub table log always 4 star stored ≡ replied r.0 (subscribed r.1))
      × (on_unsub table log always 4 star (subscribed r.1)
          ≡ replied (pos 1) (record stored { world = r.1 })))
unfolding match_isvalid contains_nul
on_unsub-of_sub_example =
    on_unsub-of_sub table log always 4 star stored (omega arith) (refl, refl) refl

-- Nobody is connected; then client 4 comes and asks for `d*`.
abbrev vacant : State Entries Log
vacant = record { clients = λ fd. fresh; all_clients = []; store = []; world = [] }

abbrev joined : State Entries Log
joined = record {
  clients = set (λ fd. fresh) 4 fresh;
  all_clients = 4 ∷ [];
  store = [];
  world = [];
}

abbrev asked : State Entries Log
asked = with_client 4 (record fresh { subs = star ∷ []; nsubs = 1 }) joined

asks : on_app_input table log always 4 cmd_sub star joined ≡ replied (pos 1) asked
unfolding on_app_input on_sub contains_nul match_isvalid send_matching set
asks = refl

joins_and_asks : Runs table log always vacant asked
unfolding on_net_accept set
joins_and_asks =
    connect false 4 tt refl
      (message 4 cmd_sub star (pos 1) asked (inl refl) (omega arith) asks stay)

Runs-IsServing_example : IsServing asked
Runs-IsServing_example =
    Runs-IsServing table log always vacant asked joins_and_asks
      (record { distinct = tt; ready = tt })
