-- ===== src/Tests/Catalog.antt =====
-- The theorems of the service catalog, at an installation (crates/db/src/repositories/catalog.rs).
use servcat.Prelude.{String, ◌=ₛ◌, ◌≡◌, Bool, refl, none, some, err}
use servcat.Db.Table.{select}
use servcat.Prelude.Int.{pos}
use servcat.Json.Sample.{sample_json}
use servcat.Db.Catalog
use servcat.Db.Catalog.{NewServiceCatalogItem}
use servcat.Db.Slugs.{Created, create_lem}
use servcat.Server.Error.{conflict}
use servcat.Server.Orchestrator.{api, start_instance}
use servcat.Server.Offers.{deactivate-start_instance}
use servcat.Tests.Data.{world, item, requester, env}

abbrev monitor : NewServiceCatalogItem
monitor = record {
  slug = some "monitor";
  name = "Monitor";
  description = none;
  summary = none;
  details = none;
  approval_label = none;
  target_value = none;
  target_unit = none;
  category = none;
  icon = none;
  sort_order = pos 0;
  workflow_definition_id = 7;
}

abbrev same : String → String → Bool
same a b = a =ₛ b

create_lem_example : Created same world monitor 1 (Catalog.create same monitor 1 world)
create_lem_example = create_lem same world monitor 1

deactivate-start_instance_example :
    start_instance env 10 5 requester (Catalog.deactivate 5 world).1
    ≡ (err (api (conflict "this service is not currently offered")), (Catalog.deactivate 5 world).1)
unfolding select
deactivate-start_instance_example = deactivate-start_instance world 5 item env 10 requester refl
