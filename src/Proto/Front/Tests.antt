-- ===== src/Proto/Front/Tests.antt =====
-- The theorem on lib/proto.c at concrete inputs.
use infod.Prelude.{ℕ, ℤ, pos, Bool, true, none, some, List, [], ◌∷◌}
use infod.Proto.Base.{Callbacks}

abbrev always : ℕ → Bool
always n = true

abbrev Log : Type 0
Log = List (ℕ × List ℕ)

abbrev note : ℕ → List ℕ → Log → ℤ × Log
note msg body log = (pos 1, (msg, body) ∷ log)

abbrev listener : Callbacks Log
listener = record { on_input = some note; on_sendv = none }

abbrev ab : List ℕ
ab = b'a' ∷ b'b' ∷ []

-- PING "ab", cut inside the header and inside the data.
abbrev cut : List (ℕ × List ℕ)
cut = (7, 0 ∷ []) ∷ (2, b'a' ∷ []) ∷ (b'b', []) ∷ []
