-- ===== src/Server/Error.antt =====
-- crates/server/src/error.rs: the errors of the API, the conversions into them and the statuses.
use Prim.Native.String.{◌++◌}
use servcat.Prelude.{ℕ, String}
use servcat.Model.User.{Uuid}
use servcat.Engine.{
  EngineError, unknown_step, wrong_step_kind, unexpected_field, empty_graph, too_many_steps,
}
use servcat.Db.World.{DbError, sqlx}
use servcat.Approvals.Resolution.{
  ApprovalsError, db, requester_has_no_manager, requester_has_no_department,
  no_user_with_role_in_department, already_decided, not_the_approver,
}
use servcat.Connectors.Dispatch.{ConnectorError}

pub data ApiError : Type 0 where
  bad_request : String → ApiError
  unauthorized forbidden : ApiError
  not_found conflict : String → ApiError
  internal : ApiError

unfoldable pub status : ApiError → ℕ
status (bad_request m) = 400
status unauthorized = 401
status forbidden = 403
status (ApiError.not_found m) = 404
status (conflict m) = 409
status internal = 500

abbrev routing_message : String
routing_message =
    "this request can't be routed for approval -- the requester's manager/department/role setup is incomplete; contact an administrator"

-- `uuid_text` is the display of a UUID.
module _ (uuid_text : Uuid → String) where
  unfoldable pub from_db : DbError → ApiError
  from_db (DbError.not_found entity id) =
      ApiError.not_found (entity ++ " " ++ uuid_text id ++ " not found")
  from_db sqlx = internal

  unfoldable pub from_approvals : ApprovalsError → ApiError
  unfolding from_db
  from_approvals (db inner) = from_db inner
  from_approvals (ApprovalsError.not_found id) =
      ApiError.not_found ("approval " ++ uuid_text id ++ " not found")
  from_approvals (already_decided id) = conflict "this approval was already decided or has expired"
  from_approvals (not_the_approver id user) = forbidden
  from_approvals requester_has_no_manager = conflict routing_message
  from_approvals requester_has_no_department = conflict routing_message
  from_approvals (no_user_with_role_in_department role) = conflict routing_message

unfoldable pub from_engine : EngineError → ApiError
from_engine (unexpected_field id expected actual) =
    bad_request (
      "step '" ++ id ++ "' expects an answer for field '" ++ expected ++ "', got '" ++ actual
      ++ "'")
from_engine (wrong_step_kind id expected found) =
    conflict "this request is not currently waiting on that kind of input"
from_engine (unknown_step id) = internal
from_engine empty_graph = internal
from_engine (too_many_steps n) = internal

unfoldable pub from_connector : ConnectorError → ApiError
from_connector e = internal
