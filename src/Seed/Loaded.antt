-- ===== src/Seed/Loaded.antt =====
-- What the loading of the starter catalog comes to (crates/server/src/catalog_seed.rs).
use package.text.Mathlib.TextPositions.{eq_refl}
use mathlib.Core.List.{append_assoc}
use servcat.Prelude.{
  ◌+◌, ◌==◌, ==_refl, String, ◌≡◌, refl, sym, ap, ◌∙◌, true, false, ◌||◌, Bool-cases, inl, inr,
  Option, some, List, [], ◌∷◌, ◌++◌, All, length, length-append, Result, ok, err, arith,
}
use servcat.Model.User.{Uuid}
use servcat.Model.Catalog.{ServiceCatalogItem}
use servcat.Exec.{continue}
use servcat.Db.Table.{select, update_where, insert, is_taken}
use servcat.Db.World.{World}
use servcat.Server.Error.{ApiError}
use servcat.Seed.Run.{SeedItem, SeedSummary, slug_list, slugs_of, contains}

-- An update of a row that is put behind the others, whose key is new.
pub update_last :
    {A : Type 0} (key : A → Uuid) (f : A → A) (r : A) (rows : List A)
    → is_taken key (key r) rows ≡ false
    → update_where (λ a. key a == key r) f (insert r rows) ≡ insert (f r) rows
unfolding update_where insert select
update_last key f r [] h = rw (==_refl (key r)) refl
update_last key f r (q ∷ rows) h = elim (Bool-cases (key q == key r)) [
  | inl e ↦ ground (arith, h, e)
  | inr e ↦ rw e (ap (λ l. q ∷ l) (update_last key f r rows (ground arith)))
]

contains_append :
    (xs ys : List String) (slug : String)
    → contains (xs ++ ys) slug ≡ (contains xs slug || contains ys slug)
contains_append [] ys slug = refl
contains_append (x ∷ xs) ys slug = ground (arith, contains_append xs ys slug)

pub slugs-append :
    (xs ys : List ServiceCatalogItem) → slugs_of (xs ++ ys) ≡ slugs_of xs ++ slugs_of ys
slugs-append [] ys = refl
slugs-append (x ∷ xs) ys =
    ap (λ l. slug_list x.slug ++ l) (slugs-append xs ys)
    ∙ sym (append_assoc (slug_list x.slug) (slugs_of xs) (slugs_of ys))

pub own_slug :
    (o : Option String) (slug : String) → o ≡ some slug → contains (slug_list o ++ []) slug ≡ true
own_slug o slug e = rw e (rw (eq_refl slug) refl)

-- `v` has the services of `w` and some new ones behind them; if the run returns, it is one with the
-- slug.
pub record Adds {V : Type 0} (slug : String) (w : World V)
    (r : Result ApiError (Unit {0}) × World V) : Type 0 where
  pub extra : List ServiceCatalogItem
  pub items : r.1.items ≡ w.items ++ extra
  pub returned : r.0 ≡ ok tt → (contains (slugs_of extra) slug ≡ true) × (length extra ≡ 1)

-- What the loop comes to: the services that were there are still there, in the same rows, with
-- new ones behind them. Where it returns, each item's slug was known or is a new service's, and
-- the summary counts the new services and the items.
pub record Loaded {V : Type 0} (existing : List String) (items : List SeedItem)
    (before : SeedSummary) (w : World V) (r : Result ApiError SeedSummary × World V) : Type 0 where
  pub extra : List ServiceCatalogItem
  pub kept : r.1.items ≡ w.items ++ extra
  pub known :
      (s : SeedSummary)
      → r.0 ≡ ok s
      → All (λ i. contains (existing ++ slugs_of extra) i.slug ≡ true) items
  pub counted :
      (s : SeedSummary)
      → r.0 ≡ ok s
      → (s.added ≡ before.added + length extra)
        × (s.added + s.skipped ≡ before.added + before.skipped + length items)

pub nothing_counted :
    (before s : SeedSummary)
    → ◌≡◌ {A = Result ApiError SeedSummary} (ok before) (ok s)
    → (s.added ≡ before.added + 0) × (s.added + s.skipped ≡ before.added + before.skipped + 0)
nothing_counted before s h = ground arith

contains_either :
    (xs ys : List String) (slug : String)
    → (contains xs slug || contains ys slug) ≡ true
    → contains (xs ++ ys) slug ≡ true
contains_either xs ys slug h = rw (contains_append xs ys slug) h

-- More new services, and the slugs are still there.
contains_more :
    (existing : List String) (first later : List ServiceCatalogItem) (slug : String)
    → contains (existing ++ slugs_of later) slug ≡ true
    → contains (existing ++ slugs_of (first ++ later)) slug ≡ true
contains_more existing first later slug h = rw (slugs-append first later) (
    ground (
      arith,
      contains_append existing (slugs_of first ++ slugs_of later) slug,
      contains_append (slugs_of first) (slugs_of later) slug,
      contains_append existing (slugs_of later) slug,
    ))

All-more :
    (existing : List String) (first later : List ServiceCatalogItem) (items : List SeedItem)
    → All (λ i. contains (existing ++ slugs_of later) i.slug ≡ true) items
    → All (λ i. contains (existing ++ slugs_of (first ++ later)) i.slug ≡ true) items
All-more existing first later [] h = tt
All-more existing first later (i ∷ items) h =
    (contains_more existing first later i.slug h.0, All-more existing first later items h.1)

-- A new service's slug is there, whatever is loaded after it.
contains_first :
    (existing : List String) (first later : List ServiceCatalogItem) (slug : String)
    → contains (slugs_of first) slug ≡ true
    → contains (existing ++ slugs_of (first ++ later)) slug ≡ true
contains_first existing first later slug h = rw (slugs-append first later) (
    ground (
      arith,
      contains_append existing (slugs_of first ++ slugs_of later) slug,
      contains_append (slugs_of first) (slugs_of later) slug,
    ))

module _ {V : Type 0} (existing : List String) (item : SeedItem) (items : List SeedItem)
    (before : SeedSummary) (w : World V) where
  pub skip_one :
      (r : Result ApiError SeedSummary × World V)
      → contains existing item.slug ≡ true
      → Loaded existing items
          (record before {
            skipped = before.skipped + 1;
            skipped_names = before.skipped_names ++ item.name ∷ [];
          })
          w
          r
      → Loaded existing (item ∷ items) before w r
  skip_one r c rest = record {
    extra = rest.extra;
    kept = rest.kept;
    known = λ s h.
        (contains_either existing (slugs_of rest.extra) item.slug (rw c refl), rest.known s h);
    counted = λ s h. let (a, b) = rest.counted s h in (a, omega (arith, a, b));
  }

  pub add_one :
      (continued : World V → Result ApiError SeedSummary × World V) (r : Result ApiError (Unit {0}))
      (v : World V)
      → Adds item.slug w (r, v)
      → ((u : World V)
          → Loaded existing items (record before { added = before.added + 1 }) u (continued u))
      → Loaded existing (item ∷ items) before w (continue (λ done. continued) r v)
  add_one continued (err e) v a rest = record {
    extra = a.extra;
    kept = a.items;
    known = λ s h. cc;
    counted = λ s h. cc;
  }
  add_one continued (ok tt) v a rest =
      let l = rest v in
      let (slug_there, one) = a.returned refl in
      record {
        extra = a.extra ++ l.extra;
        kept = l.kept ∙ ap (λ rows. rows ++ l.extra) a.items ∙ append_assoc w.items a.extra l.extra;
        known = λ s h. (
          contains_first existing a.extra l.extra item.slug slug_there,
          All-more existing a.extra l.extra items (l.known s h),
        );
        counted = λ s h.
            let (x, y) = l.counted s h in
            (omega (arith, x, one, length-append {0} a.extra l.extra), omega (arith, x, y));
      }
