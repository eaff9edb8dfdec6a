-- ===== src/Base/Chars.antt =====
-- Texts as code units: lower case for ASCII letters, and decimal numerals.
use Prim.Native.Nat.{ℕ, zero, suc, ◌+◌, ◌/◌, ◌%◌}
use mathlib.Core.Bool.{Bool, true, false, ◌&&◌, ◌||◌}
use mathlib.Core.List.{[], ◌∷◌, map}
use square.Base.Tests.{leb, ltb, nat_beq, if◌then◌else◌}
use square.Base.Keys.{Text}

unfoldable pub lower_unit : ℕ → ℕ
lower_unit c = if leb b'A' c && leb c b'Z' then c + 32 else c

-- `toLowerCase` on a text of ASCII characters, as addresses and hashes are.
unfoldable pub to_lower_case : Text → Text
unfolding lower_unit
to_lower_case t = map lower_unit t

-- The digits of a number before those that are there; a number has no more digits than its size.
decimal_from : ℕ → ℕ → Text → Text
decimal_from zero n acc = acc
decimal_from (suc fuel) n acc =
    let rest = decimal_from fuel (n / 10) ((b'0' + n % 10) ∷ acc) in
    if ltb n 10 then (b'0' + n % 10) ∷ acc else rest

unfoldable pub decimal : ℕ → Text
unfolding decimal_from
decimal n = decimal_from (n + 1) n []

starts_with : Text → Text → Bool
starts_with [] text = true
starts_with (a ∷ part) [] = false
starts_with (a ∷ part) (b ∷ text) = nat_beq a b && starts_with part text

-- `text.includes(part)`.
unfoldable pub includes : Text → Text → Bool
unfolding starts_with
includes part [] = starts_with part []
includes part (b ∷ text) = starts_with part (b ∷ text) || includes part text
