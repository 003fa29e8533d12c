-- ===== src/Model/TargetTime.antt =====
-- crates/model/src/target_time.rs, and the display of targets in crates/model/src/catalog.rs.
use Prim.Native.String.{◌++◌ as joined}
use servcat.Prelude.{
  ℕ, zero, suc, ◌/◌, ◌%◌, ◌+◌, ◌==◌, String, Bool, true, false, not, ◌&&◌, Option, none, some,
  if◌then◌else◌,
}
use servcat.Prelude.Int.{ℤ, pos, negsuc}
use servcat.Model.Catalog.{
  TargetUnit, minutes, hours, business_days, calendar_days, ServiceCatalogItem,
}

abbrev is_one : ℤ → Bool
is_one (pos n) = n == 1
is_one (negsuc n) = false

-- `TargetUnit::noun`
abbrev noun_of : TargetUnit → Bool → String
noun_of minutes true = "minute"
noun_of minutes false = "minutes"
noun_of hours true = "hour"
noun_of hours false = "hours"
noun_of business_days true = "business day"
noun_of business_days false = "business days"
noun_of calendar_days true = "day"
noun_of calendar_days false = "days"

unfoldable pub noun : TargetUnit → ℤ → String
noun unit value = noun_of unit (is_one value)

-- Minus a number.
abbrev pub minus : ℕ → ℤ
minus zero = pos 0
minus (suc n) = negsuc n

-- `value != 0 && value % 24 == 0`
abbrev is_whole_days : ℤ → Bool
is_whole_days (pos n) = not (n == 0) && n % 24 == 0
is_whole_days (negsuc n) = (n + 1) % 24 == 0

-- `value / 24`, towards zero
abbrev days_of : ℤ → ℤ
days_of (pos n) = pos (n / 24)
days_of (negsuc n) = minus ((n + 1) / 24)

abbrev is_hours : TargetUnit → Bool
is_hours minutes = false
is_hours hours = true
is_hours business_days = false
is_hours calendar_days = false

-- `decimal` is the display of a number.
module _ (decimal : ℤ → String) where
  unfoldable pub format_target : ℤ → TargetUnit → String
  unfolding noun
  format_target value unit =
      if is_hours unit && is_whole_days value
      then joined (decimal (days_of value)) (joined " " (noun calendar_days (days_of value)))
      else joined (decimal value) (joined " " (noun unit value))

  abbrev shown : Option ℤ → Option TargetUnit → Option String
  shown (some value) (some unit) = some (format_target value unit)
  shown (some value) none = none
  shown none unit = none

  unfoldable pub target_display : ServiceCatalogItem → Option String
  unfolding format_target
  target_display item = shown item.target_value item.target_unit
