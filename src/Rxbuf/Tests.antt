-- ===== src/Rxbuf/Tests.antt =====
-- The theorems on lib/rxbuf.c at concrete inputs.
use infod.Prelude.{ℕ, ◌≡◌, refl, Bool, true, [], ◌∷◌, arith}
use infod.Rxbuf.{Rxbuf, done, add, zeropad, trimspace, resize, resize_to, roundup}
use infod.Rxbuf.Bounds.{IsValid}
use infod.Rxbuf.Append.{Appends, Pads, add-Appends, zeropad-Pads}

abbrev always : ℕ → Bool
always n = true

abbrev two : Rxbuf
two = record { buf = b'h' ∷ b'i' ∷ []; max = 1024; len = 2 }

two-IsValid : IsValid two
two-IsValid = record { written = omega arith; fits = omega arith }

add-Appends_example : Appends two (b'!' ∷ []) (add always two (b'!' ∷ []))
add-Appends_example = add-Appends always two (b'!' ∷ []) two-IsValid

zeropad-Pads_example : Pads two (zeropad always two)
zeropad-Pads_example = zeropad-Pads always two two-IsValid

zeropad_runs :
    zeropad always two ≡ done (record { buf = b'h' ∷ b'i' ∷ 0 ∷ []; max = 1024; len = 2 })
unfolding zeropad add resize resize_to roundup
zeropad_runs = refl

trimspace_runs : (trimspace (record { buf = b'a' ∷ b' ' ∷ b' ' ∷ []; max = 1024; len = 3 })).len ≡ 1
unfolding trimspace
trimspace_runs = refl
