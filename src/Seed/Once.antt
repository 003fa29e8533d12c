-- ===== src/Seed/Once.antt =====
-- The starter catalog is loaded once (crates/server/src/catalog_seed.rs).
use mathlib.Core.List.{append_assoc, append-nil}
use servcat.Prelude.{
  ℕ, ◌+◌, String, ◌≡◌, refl, sym, ap, ◌∙◌, Bool, true, List, [], ◌∷◌, ◌++◌, All, map, length,
  Result, ok, err, arith,
}
use servcat.Model.User.{Uuid}
use servcat.Model.Catalog.{ServiceCatalogItem}
use servcat.Exec.{◌>>=◌}
use servcat.Db.World.{World}
use servcat.Server.Error.{ApiError}
use servcat.Seed.Run.{SeedItem, SeedSummary, slugs_of, contains, load_items, run}
use servcat.Seed.Loaded.{Loaded, slugs-append}
use servcat.Seed.Loads.{load_items-Loaded}

abbrev pub all_skipped : SeedSummary → List SeedItem → SeedSummary
all_skipped before items = record {
  added = before.added;
  skipped = before.skipped + length items;
  skipped_names = before.skipped_names ++ map (λ (i : SeedItem). i.name) items;
}

summary_eq :
    (added m n : ℕ) (xs ys : List String)
    → m ≡ n
    → xs ≡ ys
    → ◌≡◌ {A = SeedSummary}
        (record { added = added; skipped = m; skipped_names = xs })
        (record { added = added; skipped = n; skipped_names = ys })
summary_eq added m n xs ys e f = rw (e, f) refl

module _ {V : Type 0} (same : String → String → Bool) (decimal : ℕ → String)
    (uuid_text : Uuid → String) (created_by : Uuid) where
  All-known :
      (existing : List String) (index : ℕ) (items : List SeedItem) (before : SeedSummary)
      (w : World V)
      → All (λ i. contains existing i.slug ≡ true) items
      → load_items same decimal uuid_text created_by existing index items before w
        ≡ (ok (all_skipped before items), w)
  unfolding load_items
  All-known existing index [] before w h =
      ap (λ s. (ok s, w))
        (summary_eq before.added _ _ _ _ (omega arith) (sym (append-nil before.skipped_names)))
  All-known existing index (i ∷ items) before w h = rw h.0 (
      All-known existing (index + 1) items _ w h.1
      ∙ ap (λ s. (ok s, w))
          (summary_eq before.added _ _ _ _ (omega arith) (
            append_assoc before.skipped_names (i.name ∷ [])
              (map (λ (j : SeedItem). j.name) items))))

  module _ (items : List SeedItem) (w : World V) where
    pub data Seeded : Result ApiError SeedSummary × World V → Type 0 where
      stopped :
          {e : ApiError} {v : World V} (extra : List ServiceCatalogItem)
          → v.items ≡ w.items ++ extra
          → Seeded (err e, v)
      loaded :
          {s : SeedSummary} {v : World V} (extra : List ServiceCatalogItem)
          → v.items ≡ w.items ++ extra
          → s.added ≡ length extra
          → s.added + s.skipped ≡ length items
          → run same decimal uuid_text created_by items v ≡ (
            ok (record {
              added = 0;
              skipped = length items;
              skipped_names = map (λ (i : SeedItem). i.name) items;
            }),
            v,
          )
          → Seeded (ok s, v)

    Seeded-of :
        (r : Result ApiError SeedSummary × World V)
        → Loaded
            (slugs_of w.items)
            items
            (record { added = 0; skipped = 0; skipped_names = [] })
            w
            r
        → Seeded r
    unfolding run ◌>>=◌
    Seeded-of (err e, v) l = stopped l.extra l.kept
    Seeded-of (ok s, v) l =
        loaded l.extra l.kept (omega (arith, (l.counted s refl).0))
          (omega (arith, (l.counted s refl).1))
          (All-known (slugs_of v.items) 0 items _ v
              (rw (l.kept, slugs-append w.items l.extra) (l.known s refl))
            ∙ ap (λ s. (ok s, v)) (summary_eq 0 _ _ _ _ (omega arith) refl))

    -- A run of the seed keeps every service that is there in its row, and puts new ones behind
    -- them, whether it ends with an error or not. If it returns, its summary counts the new
    -- services and all items, and a second run right after it adds nothing, skips every item by
    -- name and changes nothing.
    pub run-Seeded : Seeded (run same decimal uuid_text created_by items w)
    unfolding run ◌>>=◌
    run-Seeded = Seeded-of _ (
        load_items-Loaded same decimal uuid_text created_by (slugs_of w.items) 0 items
          (record { added = 0; skipped = 0; skipped_names = [] }) w)
