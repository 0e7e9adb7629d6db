-- ===== src/Match/Tests.antt =====
-- Checks of daemon/t-match.c on the model, and the theorems on match.c at concrete inputs.
use infod.Prelude.{ℕ, ◌≡◌, refl, ◌≢◌, true, false, List, [], ◌∷◌, arith, if◌then◌else◌}
use Prim.Native.String.{String}
use Prim.Native.Char.{code}
use infod.Match.{check, at, pass, mismatch, invalid, cstr, do_match, match, match_isvalid}
use infod.Match.Valid.{
  is_well_formed, match_isvalid-eq-is_well_formed, match-ne-invalid, match_isvalid-of_pass,
}
use infod.Match.Glob.{
  Glob, end, lit, until, group, one, or, print, remains, takes_all, is_proper, is_regular,
}
use infod.Match.Glob.Meaning.{do_match-print}
use infod.Match.Escape.{do_match-star_escape}

abbrev codes : String → List ℕ
codes String.[] = []
codes (String.◌∷◌ c s) = code c ∷ codes s

-- The model on the inputs of t-match.c that its authors singled out.
t_match :
    (match (codes "(a|b(c|d)e|f)g") (codes "bdeg") ≡ pass)
    × (match (codes "(a|b(c|d)e|f)g") (codes "beg") ≡ mismatch)
    × (match (codes "(a|b(c|d)e|f)g") (codes "bfg") ≡ mismatch)
    × (match (codes "*a*") (codes "baba") ≡ pass)
    × (match (codes "*.") (codes "foo..") ≡ mismatch)
    × (match (codes "ab*?") (codes "abc") ≡ pass)
    × (match (codes "\\x") (codes "x") ≡ pass)
    × (match (codes "(a") (codes "a") ≡ invalid)
    × (match_isvalid (codes "**") ≡ false)
    × (match_isvalid (codes "(a|b)*") ≡ true)
unfolding match match_isvalid
t_match = (refl, refl, refl, refl, refl, refl, refl, refl, refl, refl)

-- (eth|wlan)*.up
abbrev interfaces : Glob
interfaces =
    group
      (or (lit b'e' (lit b't' (lit b'h' end)))
        (one (lit b'w' (lit b'l' (lit b'a' (lit b'n' end))))))
      (until b'.' (lit b'u' (lit b'p' end)))

do_match-print_example :
    do_match (print interfaces []) (at (codes "wlan0.up"))
    ≡ (if takes_all (remains interfaces (codes "wlan0.up")) then pass else mismatch)
unfolding is_proper is_regular
do_match-print_example = do_match-print interfaces (codes "wlan0.up") refl (omega arith)

match_isvalid-eq-is_well_formed_example :
    match_isvalid (codes "(a|b") ≡ is_well_formed (cstr (codes "(a|b"))
match_isvalid-eq-is_well_formed_example = match_isvalid-eq-is_well_formed (codes "(a|b")

match-ne-invalid_example : match (codes "(a|b)*") (codes "z") ≢ invalid
unfolding match_isvalid
match-ne-invalid_example = match-ne-invalid (codes "(a|b)*") (codes "z") refl

match_isvalid-of_pass_example : match_isvalid (codes "*.up") ≡ true
unfolding match
match_isvalid-of_pass_example = match_isvalid-of_pass (codes "*.up") (codes "eth0.up") refl

do_match-star_escape_example :
    (do_match (b'*' ∷ b'\\' ∷ b'.' ∷ []) (at (codes "a.")) ≡ mismatch)
    × (do_match (b'*' ∷ b'\\' ∷ b'.' ∷ []) check ≡ pass)
do_match-star_escape_example =
    do_match-star_escape b'.' (codes "a.") (omega arith) (omega arith) (omega arith)
