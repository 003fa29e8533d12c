-- ===== src/App/Audit.antt =====
-- crates/db/src/repositories/audit.rs and crates/server/src/routes/audit_log.rs: the audit trail.
use servcat.Prelude.{String, Option, ok, err, not, ◌&&◌, if◌then◌else◌}
use servcat.Model.User.{Uuid}
use servcat.Exec.{Exec, gets, ◌>>=◌}
use servcat.Db.Table.{insert, is_taken}
use servcat.Db.World.{DbError, sqlx, new_v4}
use servcat.App.State.{AuditLogEntry, AppState, on_world}
use servcat.App.Users.{refers}

module _ {V : Type 0} where
  unfoldable pub insert_entry : AuditLogEntry V → Exec (AppState V) DbError (Unit {0})
  insert_entry e s =
      if not (is_taken (λ r. r.id) e.id s.audit_log)
        && refers (λ u. u.id) e.actor_user_id s.world.users
      then (ok tt, record s { audit_log = insert e s.audit_log })
      else (err sqlx, s)

  -- The fields of `NewAuditLogEntry` are the arguments.
  unfoldable pub record_entry :
      Option Uuid
      → String
      → String
      → Option String
      → Option V
      → Exec (AppState V) DbError (Unit {0})
  unfolding insert_entry
  record_entry actor_user_id action entity_type entity_id metadata_json = do
    id ← on_world new_v4
    now ← gets (λ s. s.world.now)
    insert_entry (record {
      id = id;
      actor_user_id = actor_user_id;
      action = action;
      entity_type = entity_type;
      entity_id = entity_id;
      metadata_json = metadata_json;
      created_at = now;
    })
