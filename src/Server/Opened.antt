-- ===== src/Server/Opened.antt =====
-- The row of a new instance (crates/db/src/repositories/workflow_instances.rs).
use servcat.Prelude.{
  ◌+◌, String, ◌≡◌, refl, sym, ap, ◌∙◌, Bool, true, false, not, ◌&&◌, Bool-cases, inl, inr, none,
  some, [], Result, ok, err,
}
use servcat.Json.{Json}
use servcat.Model.User.{Uuid}
use servcat.Model.Instance.{in_progress, WorkflowInstance}
use servcat.Exec.{◌>>=◌}
use servcat.Db.Table.{select, insert, is_taken, select-fresh}
use servcat.Db.World.{sqlx, World, new_v4}
use servcat.Db.Instances

first_free : (a b c d : Bool) → (not a && b && c && d) ≡ true → a ≡ false
first_free true b c d h = cc
first_free false b c d h = refl

ok_unique : {E A : Type 0} {a b : A} (r : Result E A) → r ≡ ok a → r ≡ ok b → a ≡ b
ok_unique r h k = cc

not_both : {E A : Type 0} {a : A} {e : E} (r : Result E A) → r ≡ ok a → r ≡ err e → ⊥
not_both r h k = cc

module _ {V : Type 0} ⦃json : Json V⦄ where
  abbrev new_row : World V → Uuid → Uuid → Uuid → String → WorkflowInstance V
  new_row w definition item requester first = record {
    id = w.uuids w.drawn;
    workflow_definition_id = definition;
    catalog_item_id = item;
    requester_user_id = requester;
    status = in_progress;
    current_step_id = first;
    answers_json = json.object [];
    created_at = w.now;
    updated_at = w.now;
    completed_at = none;
  }

  abbrev stored_world : World V → WorkflowInstance V → World V
  stored_world w row = record w { drawn = w.drawn + 1; instances = insert row w.instances }

  abbrev is_storable : World V → Uuid → Uuid → Uuid → Bool
  is_storable w definition item requester =
      not (is_taken (λ i. i.id) (w.uuids w.drawn) w.instances)
      && is_taken (λ d. d.id) definition w.definitions
      && is_taken (λ i. i.id) item w.items
      && is_taken (λ u. u.id) requester w.users

  created :
      (definition item requester : Uuid) (first : String) (w : World V)
      → is_storable w definition item requester ≡ true
      → Instances.create definition item requester first w ≡ (
        ok (new_row w definition item requester first),
        stored_world w (new_row w definition item requester first),
      )
  unfolding Instances.create Instances.insert_row Instances.get_by_id new_v4 ◌>>=◌
  created definition item requester first w c =
      rw
        (
          c,
          select-fresh (λ i. i.id) (new_row w definition item requester first) w.instances
              (first_free _ _ _ _ c),
        )
        refl

  not_created :
      (definition item requester : Uuid) (first : String) (w : World V)
      → is_storable w definition item requester ≡ false
      → Instances.create definition item requester first w
        ≡ (err sqlx, record w { drawn = w.drawn + 1 })
  unfolding Instances.create Instances.insert_row Instances.get_by_id new_v4 ◌>>=◌
  not_created definition item requester first w c = rw c refl

  -- A new instance is stored under its key, for the workflow that it was created for.
  pub created_row :
      (definition item requester : Uuid) (first : String) (w v : World V) (row : WorkflowInstance V)
      → Instances.create definition item requester first w ≡ (ok row, v)
      → (select (λ i. i.id) row.id v.instances ≡ some row)
        × (row.workflow_definition_id ≡ definition)
  created_row definition item requester first w v row h =
      elim (Bool-cases (is_storable w definition item requester)) [
        | inl c ↦
            let e = created definition item requester first w c in
            let same_row : row ≡ new_row w definition item requester first =
              ok_unique (Instances.create definition item requester first w).0 (ap (λ r. r.0) h)
                (ap (λ r. r.0) e) in
            let same_world : v ≡ stored_world w (new_row w definition item requester first) =
              ap (λ r. r.1) (sym h ∙ e) in
            rw (same_row, same_world)
              (
                select-fresh (λ i. i.id) (new_row w definition item requester first) w.instances
                    (first_free _ _ _ _ c),
                refl,
              )
        | inr c ↦ absurd (
            not_both (Instances.create definition item requester first w).0 (ap (λ r. r.0) h)
              (ap (λ r. r.0) (not_created definition item requester first w c)))
      ]
