-- ===== src/Connectors/FieldMapping/Paths.antt =====
-- What the rendered object holds at the dotted paths of a field mapping
-- (crates/connectors/src/field_mapping.rs).
use package.text.Mathlib.TextEquality.{eq_iff}
use servcat.Prelude.{
  ◌≡◌, refl, ◌∙◌, ap, subst, String, Bool-cases, Option, none, some, List, [], ◌∷◌, Result, ok, err,
  ◌>>=◌, All, arith, if◌then◌else◌, inl, inr, Option-cases, ◌=ₛ◌,
}
use servcat.Connectors.FieldMapping.Segments.{IsSegmented, split_dots-IsSegmented}
use servcat.Map
use servcat.Map.{Map, get, insert, get-insert, get-insert_self, get-insert_ne}
use servcat.Json.{Json}
use servcat.Model.Workflow.{FieldMapping}
use servcat.Connectors.FieldMapping.{
  RenderError, TemplateContext, split_dots, child, set_path, set_dot_path, render_fields, render,
}

-- Two paths part at some segment: neither goes on from the other.
abbrev pub Parts : List String → List String → Type 0
Parts [] q = ⊥
Parts (s ∷ p) [] = ⊥
Parts (s ∷ p) (t ∷ q) = if s =ₛ t then Parts p q else Unit {0}

module _ {V : Type 0} ⦃json : Json V⦄ where
  -- The value at a path of a map.
  abbrev pub read_path : Map V → List String → Option V
  read_path root [] = none
  read_path root (segment ∷ []) = Map.get root segment
  read_path root (segment ∷ next ∷ rest) = read_path (child (Map.get root segment)) (next ∷ rest)

  read_set :
      (root : Map V) (s : String) (p : List String) (value : V)
      → read_path (set_path root (s ∷ p) value) (s ∷ p) ≡ some value
  unfolding set_path
  read_set root s [] value = get-insert_self root s value
  read_set root s (t ∷ p) value =
      rw
        (
          get-insert_self root s (json.object (set_path (child (Map.get root s)) (t ∷ p) value)),
          json.as_object-object (set_path (child (Map.get root s)) (t ∷ p) value),
        )
        (read_set (child (Map.get root s)) t p value)

  same_child :
      (o r : Option V) (q : List String) → o ≡ r → read_path (child o) q ≡ read_path (child r) q
  same_child o r q e = ap (λ x. read_path (child x) q) e

  read_other :
      (root : Map V) (p q : List String) (value : V)
      → Parts p q
      → read_path (set_path root p value) q ≡ read_path root q
  unfolding set_path
  read_other root [] q value h = absurd h
  read_other root (s ∷ p) [] value h = absurd h
  read_other root (s ∷ []) (t ∷ []) value h = ground (arith, get-insert root s t value)
  read_other root (s ∷ []) (t ∷ u ∷ q) value h =
      same_child _ _ (u ∷ q) (ground (arith, get-insert root s t value))
  read_other root (s ∷ n ∷ p) (t ∷ []) value h =
      ground
        (arith, get-insert root s t (json.object (set_path (child (Map.get root s)) (n ∷ p) value)))
  read_other root (s ∷ n ∷ p) (t ∷ u ∷ q) value h = elim (Bool-cases (s =ₛ t)) [
    | inl same ↦
        let e : s ≡ t = (eq_iff s t).0 same in
        let deeper : Parts (n ∷ p) (u ∷ q) =
          subst (λ b. if b then Parts (n ∷ p) (u ∷ q) else Unit {0}) same h in
        rw
          (
            get-insert root s t (json.object (set_path (child (Map.get root s)) (n ∷ p) value)),
            same,
            json.as_object-object (set_path (child (Map.get root s)) (n ∷ p) value),
            read_other (child (Map.get root s)) (n ∷ p) (u ∷ q) value deeper,
          )
          (same_child _ _ (u ∷ q) (ap (Map.get root) e))
    | inr other ↦ same_child _ _ (u ∷ q) (
        ground (
          arith,
          get-insert root s t (json.object (set_path (child (Map.get root s)) (n ∷ p) value)),
        ))
  ]

-- Each path of a mapping parts from all later ones.
abbrev pub AllPart : FieldMapping → Type 0
AllPart [] = Unit {0}
AllPart ((target, source) ∷ mapping) =
    All (λ e. Parts (split_dots e.0) (split_dots target)) mapping × AllPart mapping

module _ {V : Type 0} ⦃json : Json V⦄ (one_off : String → TemplateContext V → Option String)
    (context : TemplateContext V) where
  -- An object has, at the dotted path of an entry, the text of its template.
  abbrev pub Shows : Map V → String × String → Type 0
  Shows root (target, source) =
      (text : String) × (one_off source context ≡ some text)
      × (read_path root (split_dots target) ≡ some (json.string text))

  read_set_dot :
      (root : Map V) (p : List String) (value : V)
      → IsSegmented p
      → read_path (set_path root p value) p ≡ some value
  read_set_dot root [] value h = absurd h
  read_set_dot root (s ∷ p) value h = read_set root s p value

  rendered_kept :
      (mapping : FieldMapping) (root last : Map V) (q : List String)
      → All (λ e. Parts (split_dots e.0) q) mapping
      → render_fields one_off mapping context root ≡ ok last
      → read_path last q ≡ read_path root q
  unfolding render_fields set_dot_path
  rendered_kept [] root last q part h = ap (λ x. read_path x q) (cc)
  rendered_kept ((target, source) ∷ mapping) root last q part h =
      elim (Option-cases (one_off source context)) [
        | inl e ↦ absurd (failed_render e)
        | inr (text, e) ↦
            let later : render_fields one_off mapping context
                  (set_dot_path root target (json.string text))
                ≡ ok last =
              cc in
            rendered_kept mapping (set_dot_path root target (json.string text)) last q part.1 later
            ∙ read_other root (split_dots target) q (json.string text) part.0
      ]
    where
      failed_render : one_off source context ≡ none → ⊥
      failed_render e = cc

  render_fields-All :
      (mapping : FieldMapping) (root last : Map V)
      → AllPart mapping
      → render_fields one_off mapping context root ≡ ok last
      → All (Shows last) mapping
  unfolding render_fields set_dot_path
  render_fields-All [] root last part h = tt
  render_fields-All ((target, source) ∷ mapping) root last part h =
      elim (Option-cases (one_off source context)) [
        | inl e ↦ absurd (failed_render e)
        | inr (text, e) ↦
            let after = set_dot_path root target (json.string text) in
            let later : render_fields one_off mapping context after ≡ ok last = cc in
            (
              (
                text,
                e,
                rendered_kept mapping after last (split_dots target) part.0 later
                    ∙ read_set_dot root (split_dots target) (json.string text)
                        (split_dots-IsSegmented target),
              ),
              render_fields-All mapping after last part.1 later,
            )
      ]
    where
      failed_render : one_off source context ≡ none → ⊥
      failed_render e = cc

  -- Where a mapping is rendered, and none of its dotted paths goes on from another, the object has
  -- at each path the text that the template engine makes of that entry's template.
  pub render-Shows :
      (mapping : FieldMapping) (payload : V)
      → AllPart mapping
      → render one_off mapping context ≡ ok payload
      → (root : Map V) × (payload ≡ json.object root) × All (Shows root) mapping
  unfolding render
  render-Shows mapping payload part h = along (render_fields one_off mapping context []) refl h
    where
      along :
          (r : Result RenderError (Map V))
          → render_fields one_off mapping context [] ≡ r
          → (r >>= λ root. ok (json.object root)) ≡ ok payload
          → (root : Map V) × (payload ≡ json.object root) × All (Shows root) mapping
      along (ok root) e h = (root, cc, render_fields-All mapping [] root part e)
      along (err x) e h = absurd (cc)
