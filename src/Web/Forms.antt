-- ===== src/Web/Forms.antt =====
-- The fields of a form as values: the methods of `str` that the pages use, and the target time and
-- the lists of a service (crates/server/src/web/pages/admin/catalog.rs).
use Prim.Native.Char.{Char, code}
use Prim.Native.String.{◌++◌ as joined}
use servcat.Prelude.{
  ℕ, ◌+◌, ◌-◌, ◌*◌, ◌^◌, ◌==◌, leb, String, Bool, true, false, not, ◌&&◌, ◌||◌, Option, none, some,
  List, [], ◌∷◌, map, keep, Result, ok, err, if◌then◌else◌,
}
use servcat.Prelude.Int.{ℤ, pos, negsuc}
use servcat.Model.Catalog.{TargetUnit}
use servcat.Model.SqlText.{target_unit_from_str}
use servcat.Model.TargetTime.{minus}

-- `char::is_whitespace`
abbrev is_whitespace : ℕ → Bool
is_whitespace c =
    leb 9 c && leb c 13
    || c == 32
    || c == 133
    || c == 160
    || c == 5760
    || leb 8192 c && leb c 8202
    || c == 8232
    || c == 8233
    || c == 8239
    || c == 8287
    || c == 12288

abbrev pub is_empty : String → Bool
is_empty String.[] = true
is_empty (String.◌∷◌ c s) = false

abbrev trim_start : String → String
trim_start String.[] = ""
trim_start (String.◌∷◌ c s) =
    let rest = trim_start s in if is_whitespace (code c) then rest else String.◌∷◌ c s

abbrev trim_end : String → String
trim_end String.[] = ""
trim_end (String.◌∷◌ c s) =
    let rest = trim_end s in
    if is_whitespace (code c) && is_empty rest then "" else String.◌∷◌ c rest

unfoldable pub trim : String → String
trim s = trim_start (trim_end s)

abbrev starts_line : String → Bool
starts_line String.[] = false
starts_line (String.◌∷◌ c s) = code c == 10

abbrev onto_line : Char → List String → List String
onto_line c [] = String.◌∷◌ c "" ∷ []
onto_line c (line ∷ lines) = String.◌∷◌ c line ∷ lines

-- `str::lines`: a line ends with "\n" or "\r\n", the last one also without.
abbrev pub lines : String → List String
lines String.[] = []
lines (String.◌∷◌ c s) =
    let rest = lines s in
    if code c == 10
    then "" ∷ rest
    else (if code c == 13 && starts_line s then rest else onto_line c rest)

unfoldable pub lines_to_vec : String → List String
unfolding trim
lines_to_vec text = keep (λ line. not (is_empty line)) (map trim (lines text))

abbrev pub is_digit : ℕ → Bool
is_digit c = leb b'0' c && leb c b'9'

-- The digits behind a number up to `limit`; a step above it is an overflow.
abbrev pub scan : ℕ → String → ℕ → Option ℕ
scan limit String.[] n = some n
scan limit (String.◌∷◌ c s) n =
    let next = n * 10 + (code c - b'0') in
    let rest = scan limit s next in if is_digit (code c) && leb next limit then rest else none

abbrev pub signed : (ℕ → ℤ) → Option ℕ → Option ℤ
signed sign none = none
signed sign (some n) = some (sign n)

-- At least one digit.
abbrev pub numeral : (ℕ → ℤ) → ℕ → String → Option ℤ
numeral sign limit String.[] = none
numeral sign limit (String.◌∷◌ c s) = signed sign (scan limit (String.◌∷◌ c s) 0)

-- `str::parse::<i32>`
unfoldable pub parse_i32 : String → Option ℤ
parse_i32 String.[] = none
parse_i32 (String.◌∷◌ c s) =
    if code c == b'-'
    then numeral minus (2 ^ 31) s
    else (if code c == b'+'
        then numeral pos (2 ^ 31 - 1) s
        else numeral pos (2 ^ 31 - 1) (String.◌∷◌ c s))

abbrev pub negative_target : String
negative_target = "target time can't be negative"

abbrev pub half_target : String
half_target = "set both a target time and a unit, or leave both blank"

abbrev pub not_a_number : String → String
not_a_number value = joined "target time '" (joined value "' isn't a whole number")

abbrev pub unknown_unit : String → String
unknown_unit unit = joined "'" (joined unit "' isn't a recognized target time unit")

abbrev pub Target : Type 0
Target = Result String (Option ℤ × Option TargetUnit)

abbrev pub with_unit : ℕ → String → Option TargetUnit → Target
with_unit n unit none = err (unknown_unit unit)
with_unit n unit (some u) = ok (some (pos n), some u)

abbrev pub with_value : String → String → Option ℤ → Target
with_value value unit none = err (not_a_number value)
with_value value unit (some (negsuc n)) = err negative_target
with_value value unit (some (pos n)) = with_unit n unit (target_unit_from_str unit)

-- The pair after trimming.
abbrev pub by_emptiness : String → String → Bool → Bool → Target
by_emptiness value unit true true = ok (none, none)
by_emptiness value unit false false = with_value value unit (parse_i32 value)
by_emptiness value unit true false = err half_target
by_emptiness value unit false true = err half_target

unfoldable pub parse_target : String → String → Target
unfolding parse_i32 trim target_unit_from_str
parse_target value unit =
    let v = trim value in let u = trim unit in by_emptiness v u (is_empty v) (is_empty u)
