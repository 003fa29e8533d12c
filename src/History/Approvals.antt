-- ===== src/History/Approvals.antt =====
-- The approval service and the expiry poller evolve the state (crates/approvals/src).
use servcat.Prelude.{String, Bool, true, false, Option, none, some, List, [], ◌∷◌}
use servcat.Prelude.Int.{ℤ}
use servcat.Model.User.{Uuid, User}
use servcat.Model.Workflow.{ApproverResolution, static, manager_of_requester, role_in_department}
use servcat.Model.Instance.{WorkflowInstance}
use servcat.Model.Approval.{ApprovalDecision, PendingApproval}
use servcat.Exec.Steps.{Steps}
use servcat.Db.World.{Notification, World}
use servcat.Approvals.Resolution.{resolve_approver_user_id}
use servcat.Approvals.Service.{
  name_of_request, notify_new_approval, notify, create_for_instance, report, decide,
}
use servcat.Approvals.Poller.{hand_over, expire, expire_each, poll_once}
use servcat.History.Evolves.{Evolves}
use servcat.History.Writes.{evolve_notified, evolve_rules}
use servcat.History.Repositories.{
  Users_get-Evolves, Catalog_get-Evolves, Instances_get-Evolves, Approvals_get-Evolves,
  Approvals_expired-Evolves, Approvals_create-Evolves, decide-Evolves,
}

module _ {V : Type 0} where
  resolve-Evolves :
      (before : String → String → Bool) (requester : User) (r : ApproverResolution)
      → Steps (Evolves {V = V}) (resolve_approver_user_id before requester r)
  unfolding resolve_approver_user_id
  resolve-Evolves before requester (static user) = search evolve_rules
  resolve-Evolves before requester manager_of_requester = search evolve_rules
  resolve-Evolves before requester (role_in_department role) = search evolve_rules

  notify_new-Evolves : (n : Notification) → Steps (Evolves {V = V}) (notify_new_approval n)
  unfolding notify_new_approval
  notify_new-Evolves n = record { at = λ w. evolve_notified w n }

  name-Evolves : (row : Option (WorkflowInstance V)) → Steps Evolves (name_of_request row)
  name-Evolves none = search evolve_rules
  name-Evolves (some i) = search (evolve_rules, Catalog_get-Evolves)

  notify-Evolves :
      (id : Uuid) (requester : User) (a : PendingApproval) (approver : Option User)
      → Steps (Evolves {V = V}) (notify id requester a approver)
  unfolding notify
  notify-Evolves id requester a none = search evolve_rules
  notify-Evolves id requester a (some approver) =
      search (evolve_rules, Instances_get-Evolves, name-Evolves, notify_new-Evolves) depth 8

  pub create_for_instance-Evolves :
      (before : String → String → Bool) (id : Uuid) (step : String) (requester : User)
      (r : ApproverResolution) (timeout : Option ℤ)
      → Steps (Evolves {V = V}) (create_for_instance before id step requester r timeout)
  unfolding create_for_instance
  create_for_instance-Evolves before id step requester r timeout =
      search
        (evolve_rules, resolve-Evolves, Approvals_create-Evolves, Users_get-Evolves, notify-Evolves)
        depth 8

  report-Evolves : (id : Uuid) (flipped : Bool) → Steps (Evolves {V = V}) (report id flipped)
  unfolding report
  report-Evolves id true = search (evolve_rules, Approvals_get-Evolves)
  report-Evolves id false = search evolve_rules

  pub service_decide-Evolves :
      (id user : Uuid) (d : ApprovalDecision) (comment : Option String)
      → Steps (Evolves {V = V}) (decide id user d comment)
  unfolding decide
  service_decide-Evolves id user d comment =
      search (evolve_rules, Approvals_get-Evolves, decide-Evolves, report-Evolves) depth 8

module _ {V : Type 0} (handle_expired : PendingApproval → World V → World V)
    (keeps : (a : PendingApproval) (w : World V) → Evolves w (handle_expired a w)) where
  hand_over-Evolves :
      (a : PendingApproval) (flipped : Bool) → Steps Evolves (hand_over handle_expired a flipped)
  unfolding hand_over
  hand_over-Evolves a true = record { at = keeps a }
  hand_over-Evolves a false = search evolve_rules

  pub expire-Evolves : (a : PendingApproval) → Steps Evolves (expire handle_expired a)
  unfolding expire
  expire-Evolves a = search (evolve_rules, decide-Evolves, hand_over-Evolves)

  pub expire_each-Evolves :
      (rows : List PendingApproval) → Steps Evolves (expire_each handle_expired rows)
  unfolding expire_each
  expire_each-Evolves [] = search evolve_rules
  expire_each-Evolves (a ∷ rows) = search (evolve_rules, expire-Evolves a, expire_each-Evolves rows)

  pub poll_once-Evolves : Steps Evolves (poll_once handle_expired)
  unfolding poll_once
  poll_once-Evolves = search (evolve_rules, Approvals_expired-Evolves, expire_each-Evolves)
