-- ===== src/Durations.antt =====
-- src/utils/duration.ts, on the characters of the text. Exact while the number is below 2 ^ 53.
mod Tests
use ecommerce_rest_api.Base.{
  ℕ, ◌+◌, ◌-◌, ◌*◌, Bool, true, false, ◌&&◌, ◌||◌, Option, none, some, if◌then◌else◌, ◌==◌, leb,
}
use Prim.Native.Char.{Char, code}
use Prim.Native.String
use Prim.Native.String.{String, [], ◌∷◌}

-- The white space of `String.prototype.trim`.
abbrev pub is_space : Char → Bool
is_space c =
    let n = code c in
    leb 9 n && leb n 13
    || n == 32
    || n == 160
    || n == 5760
    || leb 8192 n && leb n 8202
    || n == 8232
    || n == 8233
    || n == 8239
    || n == 8287
    || n == 12288
    || n == 65279

abbrev is_digit : Char → Bool
is_digit c = let n = code c in leb 48 n && leb n 57

abbrev unit_ms : Char → Option ℕ
unit_ms c =
    let n = code c in
    if n == 115
    then some 1000
    else if n == 109
    then some 60000
    else if n == 104
    then some 3600000
    else if n == 100
    then some 86400000
    else if n == 119
    then some 604800000
    else none

abbrev is_blank : String → Bool
is_blank [] = true
is_blank (c ∷ s) = is_space c && is_blank s

abbrev times : ℕ → Option ℕ → Option ℕ
times n none = none
times n (some unit) = some (n * unit)

-- The rest of `^(\\d+)([smhdw])$` after digits with the value `n`, and of the trailing blanks.
unit_from : ℕ → Bool → String → Option ℕ
unit_from n seen [] = none
unit_from n seen (c ∷ s) =
    let rest = unit_from (n * 10 + (code c - 48)) true s in
    if is_digit c then rest else if seen && is_blank s then times n (unit_ms c) else none

abbrev pub trim_start : String → String
trim_start [] = []
trim_start (c ∷ s) = let rest = trim_start s in if is_space c then rest else c ∷ s

-- `none` where the source throws.
unfoldable pub parse_duration_ms : String → Option ℕ
unfolding unit_from
parse_duration_ms value = unit_from 0 false (trim_start value)
