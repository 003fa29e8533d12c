-- ===== src/App/Settings.antt =====
-- crates/db/src/repositories/org_settings.rs: the one row of settings.
use servcat.Prelude.{String, Bool, Option, none, some, ok, if◌then◌else◌}
use servcat.Exec.{Exec, gets, expect, ◌>>=◌, ◌>>◌}
use servcat.Db.Catalog.{coalesce}
use servcat.Db.World.{DbError, sqlx}
use servcat.App.State.{OrgSettings, AppState, Setup}

pub record UpdateOrgSettings : Type 0 where
  pub app_name : Option String
  pub allow_local_signup : Option Bool
  pub timezone : Option String

unfoldable pub patched : UpdateOrgSettings → OrgSettings → OrgSettings
patched patch o = record o {
  app_name = coalesce patch.app_name o.app_name;
  allow_local_signup = coalesce patch.allow_local_signup o.allow_local_signup;
  timezone = coalesce patch.timezone o.timezone;
}

abbrev pub mapped : {A B : Type 0} → (A → B) → Option A → Option B
mapped f none = none
mapped f (some a) = some (f a)

abbrev or_insert : OrgSettings → Option OrgSettings → Option OrgSettings
or_insert row none = some row
or_insert row (some old) = some old

abbrev or_servcat : Option String → String
or_servcat none = "ServCat"
or_servcat (some name) = name

module _ {V : Type 0} where
  -- The row, and what the notifications read of it.
  abbrev pub put : Option OrgSettings → AppState V → AppState V
  put row s = record s {
    settings = row;
    world = record s.world { timezone = mapped (λ o. o.timezone) row };
  }

  -- `INSERT IGNORE`, with the defaults of the migrations
  unfoldable pub seed_default : Option String → Bool → Exec (AppState V) DbError (Unit {0})
  seed_default app_name allow_local_signup s = (
    ok tt,
    put
        (or_insert
          (record {
            app_name = or_servcat app_name;
            logo_url = none;
            allow_local_signup = allow_local_signup;
            timezone = "UTC";
            updated_at = s.world.now;
          })
          s.settings)
        s,
  )

  unfoldable pub get : Exec (AppState V) DbError OrgSettings
  get = do row ← gets (λ s. s.settings); expect sqlx row

module _ {V : Type 0} (setup : Setup) where
  abbrev pub write : (OrgSettings → OrgSettings) → Exec (AppState V) DbError (Unit {0})
  write change s = (
    ok tt,
    put
        (mapped
          (λ o. record (change o) {
            updated_at = if setup.settings_differ o (change o) then s.world.now else o.updated_at;
          })
          s.settings)
        s,
  )

  unfoldable pub update : UpdateOrgSettings → Exec (AppState V) DbError OrgSettings
  unfolding patched get
  update patch = do write (patched patch); get

  unfoldable pub set_logo_url : Option String → Exec (AppState V) DbError OrgSettings
  unfolding get
  set_logo_url logo_url = do write (λ o. record o { logo_url = logo_url }); get
