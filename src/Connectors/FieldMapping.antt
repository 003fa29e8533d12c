-- ===== src/Connectors/FieldMapping.antt =====
-- crates/connectors/src/field_mapping.rs: templates rendered into a nested JSON object. The
-- template engine (Tera) is a parameter.
pub mod Segments
pub mod Paths
use Prim.Native.Char.{Char, code}
use servcat.Prelude.{
  String, ◌==◌, Option, none, some, List, [], ◌∷◌, Result, ok, err, ok_or, ◌>>=◌, if◌then◌else◌,
}
use servcat.Map
use servcat.Map.{Map}
use servcat.Json.{Json}
use servcat.Model.Workflow.{FieldMapping}

-- The target field whose template is refused.
pub data RenderError : Type 0 where
  template : String → RenderError

-- `answers`, `requester.email`, `requester.display_name`, `instance.id` and
-- `instance.catalog_item_name`
pub record TemplateContext (V : Type 0) : Type 0 where
  pub answers : V
  pub requester_email : String
  pub requester_display_name : String
  pub instance_id : String
  pub catalog_item_name : String

-- A character put before the first of some segments.
abbrev pub push : Char → List String → List String
push c [] = (String.◌∷◌ c String.[]) ∷ []
push c (s ∷ ss) = String.◌∷◌ c s ∷ ss

-- `path.split('.')`
unfoldable pub split_dots : String → List String
split_dots String.[] = String.[] ∷ []
split_dots (String.◌∷◌ c s) =
    let rest = split_dots s in if code c == b'.' then String.[] ∷ rest else push c rest

module _ {V : Type 0} ⦃json : Json V⦄ where
  abbrev pub object_or_empty : Option (Map V) → Map V
  object_or_empty none = []
  object_or_empty (some m) = m

  -- The entry of a segment that is not the last, as an object: one is put there where there is
  -- none, and what is no object is reset.
  abbrev pub child : Option V → Map V
  child none = []
  child (some v) = object_or_empty (json.as_object v)

  -- The loop over the segments of a path.
  unfoldable pub set_path : Map V → List String → V → Map V
  set_path root [] value = root
  set_path root (segment ∷ []) value = Map.insert root segment value
  set_path root (segment ∷ next ∷ rest) value =
      Map.insert root segment
        (json.object (set_path (child (Map.get root segment)) (next ∷ rest) value))

  unfoldable pub set_dot_path : Map V → String → V → Map V
  unfolding set_path split_dots
  set_dot_path root path value = set_path root (split_dots path) value

  -- `Tera::one_off` on a template and a context: the text, or a failure.
  module _ (one_off : String → TemplateContext V → Option String) where
    unfoldable pub render_fields :
        FieldMapping → TemplateContext V → Map V → Result RenderError (Map V)
    render_fields [] context root = ok root
    render_fields ((target_field, source) ∷ mapping) context root =
        ok_or (template target_field) (one_off source context) >>= λ rendered.
        render_fields mapping context (set_dot_path root target_field (json.string rendered))

    unfoldable pub render : FieldMapping → TemplateContext V → Result RenderError V
    unfolding render_fields
    render mapping context = render_fields mapping context [] >>= λ root. ok (json.object root)
