-- ===== src/Connectors/FieldMapping/Segments.antt =====
-- A dotted path has a segment (crates/connectors/src/field_mapping.rs).
use Prim.Native.Char.{Char, code}
use servcat.Prelude.{String, ◌==◌, Bool-cases, List, [], ◌∷◌, inl, inr}
use servcat.Connectors.FieldMapping.{push, split_dots}

abbrev pub IsSegmented : List String → Type 0
IsSegmented [] = ⊥
IsSegmented (s ∷ rest) = Unit {0}

push-IsSegmented : (c : Char) (segments : List String) → IsSegmented (push c segments)
push-IsSegmented c [] = tt
push-IsSegmented c (s ∷ rest) = tt

pub split_dots-IsSegmented : (s : String) → IsSegmented (split_dots s)
unfolding split_dots
split_dots-IsSegmented String.[] = tt
split_dots-IsSegmented (String.◌∷◌ c s) = elim (Bool-cases (code c == b'.')) [
  | inl dot ↦ rw dot tt
  | inr plain ↦ rw plain (push-IsSegmented c (split_dots s))
]
