-- ===== src/Server/Offers.antt =====
-- The service catalog and the requests for its services (crates/db/src/repositories/catalog.rs,
-- crates/server/src/orchestrator.rs).
use servcat.Prelude.{◌==◌, ==_refl, ℕ, ◌≡◌, refl, some, err}
use servcat.Json.{Json}
use servcat.Model.User.{Uuid, User}
use servcat.Model.Catalog.{ServiceCatalogItem}
use servcat.Exec.{◌>>=◌, map_error}
use servcat.Db.Table.{select-key, select-update_where}
use servcat.Db.World.{World}
use servcat.Db.Catalog
use servcat.Db.Catalog.{UpdateServiceCatalogItem, deactivated, patched, slug_is, is_slug_taken}
use servcat.Server.Env.{Env}
use servcat.Server.Error.{conflict}
use servcat.Server.Orchestrator.{api, open_instance, start_instance}
use servcat.Server.Replies.{item_row}

module _ {V : Type 0} (w : World V) (id : Uuid) (item : ServiceCatalogItem) where
  deactivated_row :
      item_row w id ≡ some item
      → item_row (Catalog.deactivate id w).1 id ≡ some (deactivated w.now item)
  unfolding Catalog.deactivate
  deactivated_row found =
      rw
        (
          select-update_where (λ i. i.id) (λ i. i.id == id) (deactivated w.now)
              (λ i. unfold deactivated in refl) id w.items,
          found,
        )
        (rw (select-key (λ i. i.id) id w.items item found, ==_refl id) refl)

  -- A service that is stored and deactivated cannot be requested: `start_instance` refuses it as
  -- not offered, whoever asks, and writes nothing.
  pub deactivate-start_instance :
      ⦃json : Json V⦄ (env : Env V) (fuel : ℕ) (requester : User)
      → item_row w id ≡ some item
      → let v = (Catalog.deactivate id w).1 in
        start_instance env fuel id requester v
        ≡ (err (api (conflict "this service is not currently offered")), v)
  unfolding start_instance open_instance ◌>>=◌ map_error Catalog.get_by_id deactivated
  deactivate-start_instance env fuel requester found = rw (deactivated_row found, deactivated) refl
