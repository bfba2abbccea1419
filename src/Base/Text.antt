-- ===== src/Base/Text.antt =====
-- Text that the code builds by `format!`: numbers in decimal, joined words.
use Prim.Native.Nat.{ℕ, zero, suc, ◌/◌, ◌%◌}
use Prim.Native.String.{String, ◌++◌}
use mathlib.Core.Path.{◌≡◌, refl}
use mathlib.Core.List.{List}
use build_o_tron.Base.Tests.{ltb, ◌==◌, if◌then◌else◌}

abbrev pub digit : ℕ → String
digit n =
    if n == 0
    then "0"
    else if n == 1
    then "1"
    else if n == 2
    then "2"
    else if n == 3
    then "3"
    else if n == 4
    then "4"
    else if n == 5
    then "5"
    else if n == 6
    then "6"
    else if n == 7
    then "7"
    else if n == 8
    then "8"
    else "9"

-- One digit a round: the number itself bounds the number of its digits.
unfoldable pub decimal_from : ℕ → ℕ → String
decimal_from zero n = ""
decimal_from (suc fuel) n =
    let rest = decimal_from fuel (n / 10) ++ digit (n % 10) in if ltb n 10 then digit n else rest

-- `{}` of a number.
unfoldable pub decimal : ℕ → String
unfolding decimal_from
decimal n = decimal_from (suc n) n

-- `{:03}`: at least three digits.
unfoldable pub decimal3 : ℕ → String
unfolding decimal
decimal3 n =
    if ltb n 10 then "00" ++ decimal n else if ltb n 100 then "0" ++ decimal n else decimal n

-- `words.join(separator)`
unfoldable pub join : String → List String → String
join separator List.[] = ""
join separator (List.◌∷◌ w List.[]) = w
join separator (List.◌∷◌ w (List.◌∷◌ v ws)) = (w ++ separator) ++ join separator (List.◌∷◌ v ws)

decimal_lem : decimal 1700000000123 ≡ "1700000000123"
unfolding decimal
decimal_lem = refl
