-- ===== src/Db/Slugs.antt =====
-- The keys of the service catalog (crates/db/src/repositories/catalog.rs).
use servcat.Prelude.{
  ◌+◌, String, ◌≡◌, refl, subst, Bool, true, false, not, ◌&&◌, Bool-cases, inl, inr, Option, some,
  List, [], ◌∷◌, ok, err, any, find, arith, Result,
}
use servcat.Model.User.{Uuid}
use servcat.Model.Catalog.{ServiceCatalogItem}
use servcat.Exec.{◌>>=◌}
use servcat.Db.Table.{insert, is_taken, select-fresh}
use servcat.Db.World.{DbError, sqlx, World, new_v4}
use servcat.Db.Catalog
use servcat.Db.Catalog.{NewServiceCatalogItem, slug_is, is_slug_taken}

module _ {A : Type 0} (p : A → Bool) (r : A) where
  find_last : (rows : List A) → any p rows ≡ false → p r ≡ true → find p (insert r rows) ≡ some r
  unfolding insert
  find_last [] h k = rw k refl
  find_last (q ∷ rows) h k = ground (arith, find_last rows)

  any_last : (rows : List A) → p r ≡ true → any p (insert r rows) ≡ true
  unfolding insert
  any_last [] k = rw k refl
  any_last (q ∷ rows) k = ground (arith, any_last rows)

pub first_parts : (a b c d : Bool) → (not a && not b && c && d) ≡ true → (a ≡ false) × (b ≡ false)
first_parts true b c d h = cc
first_parts false true c d h = cc
first_parts false false c d h = (refl, refl)

blocked : (a b c d : Bool) → b ≡ true → (not a && not b && c && d) ≡ false
blocked true b c d h = refl
blocked false true c d h = refl
blocked false false c d h = cc

module _ {V : Type 0} (same : String → String → Bool) (w : World V) where
  module _ (new : NewServiceCatalogItem) (author : Uuid) where
    -- The service as it is created.
    abbrev pub new_row : ServiceCatalogItem
    new_row = record {
      id = w.uuids w.drawn;
      slug = new.slug;
      name = new.name;
      description = new.description;
      summary = new.summary;
      details_json = new.details;
      approval_label = new.approval_label;
      target_value = new.target_value;
      target_unit = new.target_unit;
      category = new.category;
      icon = new.icon;
      sort_order = new.sort_order;
      workflow_definition_id = new.workflow_definition_id;
      is_active = true;
      created_by = some author;
      created_at = w.now;
      updated_at = w.now;
    }

    abbrev pub is_storable : Bool
    is_storable =
        not (is_taken (λ i. i.id) (w.uuids w.drawn) w.items)
        && not (is_slug_taken same new.slug w.items)
        && is_taken (λ d. d.id) new.workflow_definition_id w.definitions
        && is_taken (λ u. u.id) author w.users

    abbrev pub drawn_world : World V
    drawn_world = record w { drawn = w.drawn + 1 }

    abbrev pub created_world : World V
    created_world = record drawn_world { items = insert new_row w.items }

    -- What the slug is good for after the creation: it finds the service, and is refused.
    pub record Slugged (slug : String) : Type 0 where
      pub found : Catalog.get_by_slug same slug created_world ≡ (ok (some new_row), created_world)
      pub again :
          (other : NewServiceCatalogItem) (by : Uuid)
          → other.slug ≡ some slug
          → Catalog.create same other by created_world
            ≡ (err sqlx, record created_world { drawn = w.drawn + 1 + 1 })

    pub data Created : Result DbError ServiceCatalogItem × World V → Type 0 where
      refused : is_storable ≡ false → Created (err sqlx, drawn_world)
      created :
          is_storable ≡ true
          → ((slug : String) → new.slug ≡ some slug → same slug slug ≡ true → Slugged slug)
          → Created (ok new_row, created_world)

    slug_taken :
        (slug : String) (o : Option String)
        → new.slug ≡ some slug
        → same slug slug ≡ true
        → o ≡ some slug
        → is_slug_taken same o (insert new_row w.items) ≡ true
    slug_taken slug o e k h =
        rw h (any_last (λ i. slug_is same slug i.slug) new_row w.items (rw e k))

    refused_again :
        (slug : String) (other : NewServiceCatalogItem) (by : Uuid)
        → new.slug ≡ some slug
        → same slug slug ≡ true
        → other.slug ≡ some slug
        → Catalog.create same other by created_world
          ≡ (err sqlx, record created_world { drawn = w.drawn + 1 + 1 })
    unfolding Catalog.create Catalog.insert_row ◌>>=◌ new_v4
    refused_again slug other by e k o = rw (blocked _ _ _ _ (slug_taken slug other.slug e k o)) refl

    slugged :
        is_slug_taken same new.slug w.items ≡ false
        → (slug : String) → new.slug ≡ some slug
        → same slug slug ≡ true
        → Slugged slug
    unfolding Catalog.get_by_slug
    slugged free slug e k = record {
      found =
          rw
            (find_last (λ i. slug_is same slug i.slug) new_row w.items
              (subst (λ o. is_slug_taken same o w.items ≡ false) e free) (rw e k))
            refl;
      again = λ other by o. refused_again slug other by e k o;
    }

    -- `create` refuses a service whose key or slug is taken, or whose workflow or author is
    -- missing, without a write. Otherwise it stores the service as an active one and returns it.
    -- If the collation finds its slug equal to itself, the slug then finds it, and a creation with
    -- the same slug right after is refused, whoever makes it.
    pub create_lem : Created (Catalog.create same new author w)
    unfolding Catalog.create Catalog.insert_row Catalog.get_by_id ◌>>=◌ new_v4
    create_lem = elim (Bool-cases is_storable) [
      | inl c ↦
          let (free, no_slug) = first_parts _ _ _ _ c in
          rw (c, select-fresh (λ i. i.id) new_row w.items free) (created c (slugged no_slug))
      | inr c ↦ rw c (refused c)
    ]
