-- ===== src/Tests/Fields.antt =====
-- The theorems of the field mapping, at a mapping (crates/connectors/src/field_mapping.rs).
use servcat.Prelude.{◌≡◌, refl, [], ◌∷◌, All, some, ok}
use servcat.Map.{Map, insert, get}
use servcat.Json.Sample.{Sample, text, obj, from_map, sample_json, field, end}
use servcat.Model.Workflow.{FieldMapping}
use servcat.Connectors.FieldMapping.{TemplateContext, split_dots, set_dot_path, render}
use servcat.Connectors.FieldMapping.Paths.{AllPart, Shows, render-Shows}
use servcat.Tests.Data.{small}

abbrev mapping : FieldMapping
mapping = ("title", "Laptop") ∷ ("fields.size", "small") ∷ ("fields.kind", "laptop") ∷ []

abbrev context : TemplateContext Sample
context = record {
  answers = obj (from_map small);
  requester_email = "ann@example.org";
  requester_display_name = "Ann";
  instance_id = "10";
  catalog_item_name = "Laptop";
}

mapping-AllPart : AllPart mapping
unfolding split_dots
mapping-AllPart = ((tt, (tt, tt)), ((tt, tt), (tt, tt)))

abbrev payload : Sample
payload = obj (
    field "title" (text "Laptop")
      (field "fields" (obj (field "size" (text "small") (field "kind" (text "laptop") end))) end))

rendered : render (λ template context. some template) mapping context ≡ ok payload
unfolding render set_dot_path insert get sample_json
rendered = refl

render-Shows_example :
    (root : Map Sample) × (payload ≡ sample_json.object root)
    × All (Shows (λ template context. some template) context root) mapping
render-Shows_example =
    render-Shows (λ template context. some template) context mapping payload mapping-AllPart
      rendered
