-- ===== src/Client/Tests.antt =====
-- lib/info.c at a few messages.
use infod.Prelude.{
  ℕ, ◌<◌, ◌==◌, if◌then◌else◌, ◌≡◌, ◌⊎◌, refl, ◌+◌, ℤ, pos, negsuc, Bool, true, false, Option, none,
  some, List, [], ◌∷◌, arith, length,
}
use infod.Match.{cstr}
use infod.Proto.Base.{msg_info, msg_error}
use infod.Client.{
  Bind, Waitret, Waits, returns, reading, value_of, note_until, note_exists, note_binds, tell,
  on_input, wait_loop, wait_until,
}
use infod.Client.Reads.{reader, take_in, lengths, IsRead, take_in-IsRead}

abbrev idle : Waitret (List (List ℕ))
idle = record {
  until_msg = 0;
  in_cb = false;
  done = 0;
  binds = none;
  exists_key = none;
  exists_ret = false;
  buffer = [];
  buffersz = 0;
  info_cb = none;
  last_error = [];
  world = [];
}

abbrev unbound : List ℕ → Bind
unbound key = record { key = key; value = none; valuesz = 0 }

abbrev keys : List Bind
keys = unbound (b'a' ∷ []) ∷ unbound (b'b' ∷ []) ∷ []

abbrev answers : List (List ℕ)
answers = (b'b' ∷ 0 ∷ b'x' ∷ b'y' ∷ []) ∷ (b'a' ∷ []) ∷ []

take_in-IsRead_example :
    (((take_in answers (reader keys [] 4 idle)).0 ≡ negsuc 0)
      × (4 < length {A = ℕ} [] + lengths answers))
    ⊎ (((take_in answers (reader keys [] 4 idle)).0 ≡ pos 1)
        × IsRead answers keys [] 4 (take_in answers (reader keys [] 4 idle)).1)
take_in-IsRead_example = take_in-IsRead answers keys [] 4 idle (tt, (tt, tt)) (omega arith)

abbrev error_then_end : List (Option (List ℕ))
error_then_end = some (b'!' ∷ []) ∷ none ∷ []

-- A translator that takes each read for one message, INFO or, with `!`, ERROR.
abbrev translate : List ℕ → Waitret (List (List ℕ)) → ℤ × Waitret (List (List ℕ))
translate [] w = (pos 1, w)
translate (b ∷ net) w = on_input (if b == b'!' then msg_error else msg_info) (b ∷ net) w

abbrev number : Waits (List (List ℕ)) → ℤ × (Bool × ℕ)
number (returns n e w) = (n, (e, length w.last_error))
number (reading w) = (pos 9, (true, 0))

-- An error from the server ends the wait with -1 and its text.
waits_for_error :
    number (wait_until translate msg_info error_then_end idle) ≡ (negsuc 0, (false, 10))
unfolding wait_until wait_loop on_input note_until note_exists note_binds tell value_of cstr
waits_for_error = refl

abbrev asks : Waitret (List (List ℕ))
asks = record idle { exists_key = some (b'a' ∷ []) }

-- info_exists() of a key with a value.
waits_for_exists :
    wait_until translate 255 (some (b'a' ∷ 0 ∷ []) ∷ []) asks
    ≡ returns (pos 1) true (record asks { until_msg = 255; done = 1; exists_ret = true })
unfolding wait_until wait_loop on_input note_until note_exists note_binds tell value_of cstr
waits_for_exists = refl
