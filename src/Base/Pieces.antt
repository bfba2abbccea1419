-- ===== src/Base/Pieces.antt =====
-- Rust's `split`, `replace`, `trim`, `ends_with`, `contains` and `parse` on the texts that the code
-- takes apart. Each loop is bounded by the length of the text, since every round shortens it. White
-- space is ASCII's.
use Prim.Native.Nat.{ℕ, zero, suc, ◌+◌, ◌-◌, ◌*◌, ◌^◌}
use Prim.Native.String.{String, len, slice}
use text.Mathlib.Text.{starts_with, get?, find?}
use mathlib.Core.Path.{◌≡◌, refl}
use mathlib.Core.Bool.{Bool, true, false, ◌||◌}
use mathlib.Core.Option.{Option, none, some}
use mathlib.Core.List.{List, [], ◌∷◌}
use build_o_tron.Base.Text.{join}
use build_o_tron.Base.Tests.{ltb, ◌==◌, ◌=?◌, if◌then◌else◌}

unfoldable pub split_from : ℕ → String → String → List String
split_from zero separator s = s ∷ []
split_from (suc fuel) separator s = elim (find? s separator) [
  | none ↦ s ∷ []
  | some i ↦ slice s 0 i ∷ split_from fuel separator (slice s (i + len separator) (len s))
]

-- `s.split(separator)`, for a separator that is not empty.
unfoldable pub split : String → String → List String
unfolding split_from
split separator s = split_from (suc (len s)) separator s

-- `s.replace(pattern, by)`
unfoldable pub replace : String → String → String → String
unfolding split join
replace pattern by s = join by (split pattern s)

abbrev pub ends_with : String → String → Bool
ends_with suffix s =
    if ltb (len s) (len suffix)
    then false
    else elim (get? s (len s - len suffix) (len s)) [ none ↦ false | some t ↦ t =? suffix ]

abbrev pub contains : String → String → Bool
contains pattern s = elim (find? s pattern) [ none ↦ false | some i ↦ true ]

abbrev starts_white : String → Bool
starts_white s = starts_with s " " || starts_with s "\t" || starts_with s "\n" || starts_with s "\r"

abbrev ends_white : String → Bool
ends_white s = ends_with " " s || ends_with "\t" s || ends_with "\n" s || ends_with "\r" s

unfoldable pub trim_start : ℕ → String → String
trim_start zero s = s
trim_start (suc fuel) s =
    let rest = trim_start fuel (slice s 1 (len s)) in if starts_white s then rest else s

unfoldable pub trim_end : ℕ → String → String
trim_end zero s = s
trim_end (suc fuel) s =
    let rest = trim_end fuel (slice s 0 (len s - 1)) in if ends_white s then rest else s

-- `s.trim()`
unfoldable pub trim : String → String
unfolding trim_start trim_end
trim s = trim_end (len s) (trim_start (len s) s)

abbrev digit_value : String → Option ℕ
digit_value d =
    if d =? "0"
    then some 0
    else if d =? "1"
    then some 1
    else if d =? "2"
    then some 2
    else if d =? "3"
    then some 3
    else if d =? "4"
    then some 4
    else if d =? "5"
    then some 5
    else if d =? "6"
    then some 6
    else if d =? "7"
    then some 7
    else if d =? "8"
    then some 8
    else if d =? "9"
    then some 9
    else none

abbrev add_digit : Option ℕ → Option ℕ → Option ℕ
add_digit (some n) (some d) = if ltb (n * 10 + d) (2 ^ 64) then some (n * 10 + d) else none
add_digit _ _ = none

abbrev first_byte : String → String
first_byte s = elim (get? s 0 1) [ none ↦ "" | some d ↦ d ]

unfoldable pub digits_from : ℕ → Option ℕ → String → Option ℕ
digits_from zero n s = n
digits_from (suc fuel) n s =
    digits_from fuel (add_digit n (digit_value (first_byte s))) (slice s 1 (len s))

abbrev unsigned : String → String
unsigned s = if starts_with s "+" then slice s 1 (len s) else s

-- `s.parse::<u64>()`: digits, after a plus sign if there is one, of a number below 2^64.
unfoldable pub parse_u64 : String → Option ℕ
unfolding digits_from
parse_u64 s =
    if len (unsigned s) == 0 then none else digits_from (len (unsigned s)) (some 0) (unsigned s)

split_lem : split ":" "model name\t: Intel: x" ≡ "model name\t" ∷ " Intel" ∷ " x" ∷ []
unfolding split
split_lem = refl

trim_lem : trim "  64 kB\n" ≡ "64 kB"
unfolding trim
trim_lem = refl

replace_lem : replace "/" "_" "a/b//c" ≡ "a_b__c"
unfolding replace
replace_lem = refl

parse_u64_lem : (parse_u64 "3500000" ≡ some 3500000) × (parse_u64 "12x" ≡ none)
unfolding parse_u64
parse_u64_lem = (refl, refl)
