-- ===== src/Web/Targets.antt =====
-- The target time of a form against the numbers and units that its texts denote
-- (crates/server/src/web/pages/admin/catalog.rs).
use servcat.Prelude.{ℕ, String, ◌≡◌, ◌≢◌, refl, Bool, true, false, Option, none, some, ok, err}
use servcat.Prelude.Int.{ℤ, pos, negsuc}
use servcat.Model.Catalog.{TargetUnit}
use servcat.Model.SqlText.{
  target_unit_as_str, target_unit_from_str, target_unit_forth, target_unit_back,
}
use servcat.Web.Forms.{
  is_empty, trim, parse_i32, negative_target, half_target, not_a_number, unknown_unit, Target,
  with_unit, with_value, by_emptiness, parse_target,
}
use servcat.Web.Integers.{Denotes, IsI32, parse_i32-Denotes, Denotes-parse_i32}

-- What `parse_target` makes of the trimmed texts.
pub data Parsed (value unit : String) : Target → Type 0 where
  blank : is_empty value ≡ true → is_empty unit ≡ true → Parsed value unit (ok (none, none))
  half : is_empty value ≢ is_empty unit → Parsed value unit (err half_target)
  no_number :
      is_empty value ≡ false
      → is_empty unit ≡ false
      → ((v : ℤ) → Denotes value v → ¬ IsI32 v)
      → Parsed value unit (err (not_a_number value))
  negative :
      {n : ℕ}
      → is_empty unit ≡ false
      → Denotes value (negsuc n)
      → IsI32 (negsuc n)
      → Parsed value unit (err negative_target)
  no_unit :
      {n : ℕ}
      → is_empty unit ≡ false
      → Denotes value (pos n)
      → IsI32 (pos n)
      → ((u : TargetUnit) → target_unit_as_str u ≢ unit)
      → Parsed value unit (err (unknown_unit unit))
  target :
      {n : ℕ} {u : TargetUnit}
      → Denotes value (pos n)
      → IsI32 (pos n)
      → target_unit_as_str u ≡ unit
      → Parsed value unit (ok (some (pos n), some u))

with_value-Parsed :
    (value unit : String) (o : Option ℤ)
    → is_empty value ≡ false
    → is_empty unit ≡ false
    → parse_i32 value ≡ o
    → Parsed value unit (with_value value unit o)
with_value-Parsed value unit none e f p =
    no_number e f λ v d i. absurd (cc (Denotes-parse_i32 value v d i, p))
with_value-Parsed value unit (some (negsuc n)) e f p =
    let (d, i) = parse_i32-Denotes value (negsuc n) p in negative f d i
with_value-Parsed value unit (some (pos n)) e f p =
    let (d, i) = parse_i32-Denotes value (pos n) p in
    unit-Parsed d i (target_unit_from_str unit) refl
  where
    unit-Parsed :
        Denotes value (pos n)
        → IsI32 (pos n)
        → (o : Option TargetUnit) → target_unit_from_str unit ≡ o
        → Parsed value unit (with_unit n unit o)
    unit-Parsed d i none q = no_unit f d i λ u k. absurd (cc (target_unit_forth u, k, q))
    unit-Parsed d i (some u) q = target d i (target_unit_back unit u q)

-- `parse_target` gives no target where both texts are blank, and refuses one blank text. Otherwise
-- the value must be an integer of 32 bits, signed or not, that is not negative, and the unit one of
-- the four texts, in this order of the errors; the target is then that number, below 2 ^ 31, and
-- that unit. The texts are trimmed first.
pub parse_target_lem :
    (value unit : String) → Parsed (trim value) (trim unit) (parse_target value unit)
unfolding parse_target
parse_target_lem value unit = cases (is_empty (trim value)) (is_empty (trim unit)) refl refl
  where
    cases :
        (a b : Bool)
        → is_empty (trim value) ≡ a
        → is_empty (trim unit) ≡ b
        → Parsed (trim value) (trim unit) (by_emptiness (trim value) (trim unit) a b)
    cases true true e f = blank e f
    cases true false e f = half (λ k. cc)
    cases false true e f = half (λ k. cc)
    cases false false e f =
        with_value-Parsed (trim value) (trim unit) (parse_i32 (trim value)) e f refl
