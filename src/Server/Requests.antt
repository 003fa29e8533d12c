-- ===== src/Server/Requests.antt =====
-- The requests that the server handles one after another, with the polls of the expiry poller and
-- the time that passes between them (crates/server/src/routes, crates/approvals/src/poller.rs).
use servcat.Prelude.{ℕ, String, Option, List, [], ◌∷◌}
use servcat.Prelude.Int.{pos, ◌+ℤ◌}
use servcat.Json.{Json}
use servcat.Model.User.{Uuid}
use servcat.Model.Approval.{ApprovalDecision}
use servcat.Db.World.{World}
use servcat.Approvals.Poller.{poll_once}
use servcat.Server.Env.{Env}
use servcat.Server.Orchestrator.{handle_expired}
use servcat.Server.Routes

pub data Request (V : Type 0) : Type 0 where
  -- the user and the catalog item
  start : Uuid → Uuid → Request V
  -- the user, the instance, the field key and the value
  submit_answer : Uuid → Uuid → String → V → Request V
  -- the user, the approval, the decision and the comment
  decide : Uuid → Uuid → ApprovalDecision → Option String → Request V
  poll : Request V
  -- so many seconds pass
  wait : ℕ → Request V

module _ {V : Type 0} ⦃json : Json V⦄ (env : Env V) (fuel : ℕ) where
  -- The state after a request, whatever is replied.
  unfoldable pub handle : Request V → World V → World V
  unfolding Routes.start Routes.submit_answer Routes.decide poll_once
  handle (start user item) w = (Routes.start env fuel user item w).1
  handle (submit_answer user id key v) w = (Routes.submit_answer env fuel user id key v w).1
  handle (decide user id d comment) w = (Routes.decide env fuel user id d comment w).1
  handle poll w = (poll_once (handle_expired env fuel) w).1
  handle (wait seconds) w = record w { now = w.now +ℤ pos seconds }

  unfoldable pub serve : List (Request V) → World V → World V
  serve [] w = w
  serve (r ∷ rest) w = serve rest (handle r w)
