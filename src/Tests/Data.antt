-- ===== src/Tests/Data.antt =====
-- A workflow that asks for a size, lets big ones be approved and submits a ticket, with its users,
-- a service, a request that waits for approval, and an overdue approval.
use servcat.Prelude.{
  ℕ, ◌+◌, ◌<◌, String, ◌=ₛ◌, refl, true, false, none, some, [], ◌∷◌, ok, arith, if◌then◌else◌,
}
use servcat.Prelude.Int.{pos}
use servcat.Json.Sample.{Sample, text, obj, sample_json, from_map}
use servcat.Model.User.{User, Role}
use servcat.Model.Workflow.{
  InputType, equals, EndOutcome, static, question, branch, wait_for_approval, submit_ticket, end,
  Step, WorkflowGraph, step, TargetSystem, WorkflowDefinition,
}
use servcat.Model.Instance.{InstanceStatus, WorkflowInstance}
use servcat.Model.Approval.{ApprovalStatus, PendingApproval}
use servcat.Model.Catalog.{ServiceCatalogItem}
use servcat.Engine.{Answers}
use servcat.Engine.Valid.{IsClosed, IsRanked}
use servcat.Db.World.{World}
use servcat.Server.Env.{Env}
use servcat.Server.AtRest.{IsForward}

abbrev pub ask : Step Sample
ask = record { id = "ask"; label = "Size?"; kind = question "size" InputType.text true [] "route" }

abbrev pub route : Step Sample
route = record {
  id = "route";
  label = "";
  kind = branch (equals "size" (text "big")) "approve" "ticket";
}

abbrev pub approval_step : Step Sample
approval_step = record {
  id = "approve";
  label = "Approval";
  kind = wait_for_approval (static 2) "ticket" "no" (some (pos 60));
}

abbrev pub ticket_step : Step Sample
ticket_step = record { id = "ticket"; label = "Ticket"; kind = submit_ticket "done" }

abbrev pub graph : WorkflowGraph Sample
graph = record {
  entry_step_id = "ask";
  steps =
      ask
      ∷ route
      ∷ approval_step
      ∷ ticket_step
      ∷ (record { id = "done"; label = ""; kind = end EndOutcome.completed })
      ∷ (record { id = "no"; label = ""; kind = end EndOutcome.rejected })
      ∷ [];
}

abbrev pub rank : String → ℕ
rank id = if id =ₛ "route" then 2 else (if id =ₛ "ticket" then 1 else 0)

pub rank_low : (id : String) → rank id < 256
rank_low id = ground arith

pub graph-IsClosed : IsClosed graph
unfolding step
graph-IsClosed = record {
  entry = (_, refl);
  steps = (
    ((_, refl), tt),
    (
      ((_, refl), ((_, refl), tt)),
      (((_, refl), ((_, refl), tt)), (((_, refl), tt), (tt, (tt, tt)))),
    ),
  );
}

pub graph-IsRanked : IsRanked rank graph
graph-IsRanked = record {
  low = rank_low;
  steps = (tt, ((omega arith, omega arith), (tt, (tt, (tt, (tt, tt))))));
}

pub graph-IsForward : IsForward rank graph
graph-IsForward = (tt, ((omega arith, omega arith), (tt, (omega arith, (tt, (tt, tt))))))

abbrev pub big : Answers Sample
big = ("size", text "big") ∷ []

abbrev pub small : Answers Sample
small = ("size", text "small") ∷ []

abbrev pub definition : WorkflowDefinition Sample
definition = record {
  id = 7;
  name = "Laptop";
  version = pos 1;
  graph = graph;
  field_mapping = some (("title", "Laptop") ∷ ("fields.size", "{{ answers.size }}") ∷ []);
  target_system = some TargetSystem.webhook;
  is_published = true;
  created_by = none;
  created_at = pos 0;
  updated_at = pos 0;
}

abbrev pub requester : User
requester = record {
  id = 1;
  email = "ann@example.org";
  display_name = "Ann";
  password_hash = none;
  external_idp_subject = none;
  department_id = none;
  manager_user_id = some 2;
  role = Role.requester;
  is_active = true;
  created_at = pos 0;
  updated_at = pos 0;
}

abbrev pub approver : User
approver = record {
  id = 2;
  email = "bob@example.org";
  display_name = "Bob";
  password_hash = some "hash of Bob's";
  external_idp_subject = none;
  department_id = some 3;
  manager_user_id = none;
  role = Role.approver;
  is_active = true;
  created_at = pos 0;
  updated_at = pos 0;
}

abbrev pub item : ServiceCatalogItem
item = record {
  id = 5;
  slug = none;
  name = "Laptop";
  description = none;
  summary = none;
  details_json = none;
  approval_label = none;
  target_value = none;
  target_unit = none;
  category = none;
  icon = none;
  sort_order = pos 0;
  workflow_definition_id = 7;
  is_active = true;
  created_by = none;
  created_at = pos 0;
  updated_at = pos 0;
}

abbrev pub request_row : WorkflowInstance Sample
request_row = record {
  id = 10;
  workflow_definition_id = 7;
  catalog_item_id = 5;
  requester_user_id = 1;
  status = InstanceStatus.awaiting_approval;
  current_step_id = "approve";
  answers_json = obj (from_map big);
  created_at = pos 0;
  updated_at = pos 0;
  completed_at = none;
}

abbrev pub open_approval : PendingApproval
open_approval = record {
  id = 20;
  workflow_instance_id = 10;
  step_id = "approve";
  approver_user_id = 2;
  status = ApprovalStatus.pending;
  comment = none;
  decided_at = none;
  expires_at = some (pos 60);
  created_at = pos 0;
}

abbrev pub closed_approval : PendingApproval
closed_approval = record open_approval {
  id = 21;
  status = ApprovalStatus.rejected;
  decided_at = some (pos 5);
}

abbrev pub world : World Sample
world = record {
  now = pos 100;
  uuids = λ n. 1000 + n;
  drawn = 0;
  users = requester ∷ approver ∷ [];
  items = item ∷ [];
  definitions = definition ∷ [];
  instances = request_row ∷ [];
  approvals = open_approval ∷ closed_approval ∷ [];
  tickets = [];
  timezone = some "UTC";
  notified = [];
  dispatched = [];
}

abbrev pub env : Env Sample
env = record {
  name_before = λ a b. true;
  uuid_text = λ id. "a UUID";
  one_off = λ template context. some template;
  configured = λ target. true;
  reply =
      λ target n payload. ok (record { external_ticket_id = "T-1"; external_ticket_url = none });
  error_text = λ e. "an error";
}

-- No ticketing system is configured here.
abbrev pub bare_env : Env Sample
bare_env = record env { configured = λ target. false }
