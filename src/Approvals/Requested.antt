-- ===== src/Approvals/Requested.antt =====
-- The request for an approval on every branch (crates/approvals/src/service.rs).
use servcat.Prelude.{
  ◌+◌, String, Bool, ◌≡◌, refl, true, false, Bool-cases, Option-cases, inl, inr, Option, none, some,
  [], ◌∷◌, ◌++◌, ◌&&◌, not, keep, Result, ok, err,
}
use servcat.Prelude.Int.{ℤ, ◌+ℤ◌}
use servcat.Model.User.{Uuid, Timestamp, User}
use servcat.Model.Workflow.{ApproverResolution, static, manager_of_requester, role_in_department}
use servcat.Model.Instance.{WorkflowInstance}
use servcat.Model.Approval.{pending, PendingApproval}
use servcat.Exec.{Exec, expect, continue, ◌>>=◌, map_error}
use servcat.Db.Table.{select, insert, is_taken, select-fresh}
use servcat.Map.{is_some}
use servcat.Db.World.{sqlx, World, new_v4}
use servcat.Db.Users
use servcat.Db.Users.{by_name, is_candidate}
use servcat.Db.Catalog
use servcat.Db.Instances
use servcat.Db.Approvals
use servcat.Approvals.Resolution.{ApprovalsError, first_id, resolve_approver_user_id}
use servcat.Approvals.Service.{expiry, item_name, notify_new_approval, notify, create_for_instance}

and_parts : (a b c : Bool) → (not a && b && c) ≡ true → (a ≡ false) × ((b ≡ true) × (c ≡ true))
and_parts true b c h = cc
and_parts false true true h = (refl, (refl, refl))
and_parts false true false h = cc
and_parts false false c h = cc

row_of : {A : Type 0} (o : Option A) → is_some o ≡ true → (r : A) × (o ≡ some r)
row_of none h = cc
row_of (some r) h = (r, refl)

expiry_lem :
    (now : Timestamp) (timeout : Option ℤ)
    → expiry now timeout ≡ elim timeout [ none ↦ none | some secs ↦ some (now +ℤ secs) ]
unfolding expiry
expiry_lem now none = refl
expiry_lem now (some secs) = refl

module _ {V : Type 0} (before : String → String → Bool) (w : World V) (requester : User) where
  expect-still : (e : ApprovalsError) (o : Option Uuid) → (expect {W = World V} e o w).1 ≡ w
  expect-still e none = refl
  expect-still e (some id) = refl

  resolve-still : (r : ApproverResolution) → (resolve_approver_user_id before requester r w).1 ≡ w
  unfolding resolve_approver_user_id ◌>>=◌ map_error Users.list_active_by_role_in_department
  resolve-still (static id) = refl
  resolve-still manager_of_requester = expect-still _ requester.manager_user_id
  resolve-still (role_in_department role) = elim (Option-cases requester.department_id) [
    | inl e ↦ rw e refl
    | inr (department, e) ↦
        rw e
          (expect-still _ (first_id (by_name before (keep (is_candidate role department) w.users))))
  ]

  module _ (instance_id : Uuid) (step_id : String) (resolution : ApproverResolution)
      (timeout : Option ℤ) where
    abbrev pub fresh_id : Uuid
    fresh_id = w.uuids w.drawn

    -- The time at which the approval expires: so many seconds from now, or never.
    abbrev pub deadline : Option Timestamp
    deadline = elim timeout [ none ↦ none | some secs ↦ some (w.now +ℤ secs) ]

    -- The approval that is asked of a user.
    abbrev pub asked_of : Uuid → PendingApproval
    asked_of approver = record {
      id = fresh_id;
      workflow_instance_id = instance_id;
      step_id = step_id;
      approver_user_id = approver;
      status = pending;
      comment = none;
      decided_at = none;
      expires_at = deadline;
      created_at = w.now;
    }

    -- The database takes the row: its key is new, and what it refers to is there.
    abbrev pub is_storable : Uuid → Bool
    is_storable approver =
        not (is_taken (λ a. a.id) fresh_id w.approvals)
        && is_taken (λ i. i.id) instance_id w.instances
        && is_taken (λ u. u.id) approver w.users

    abbrev pub drawn_world : World V
    drawn_world = record w { drawn = w.drawn + 1 }

    abbrev pub stored_world : Uuid → World V
    stored_world approver = record drawn_world {
      approvals = insert (asked_of approver) w.approvals;
    }

    abbrev pub named : WorkflowInstance V → String
    named i = item_name (select (λ j. j.id) i.catalog_item_id w.items)

    pub data Requested : Result ApprovalsError PendingApproval → World V → Type 0 where
      unresolved :
          {e : ApprovalsError}
          → (resolve_approver_user_id before requester resolution w).0 ≡ err e
          → Requested (err e) w
      refused :
          {approver : Uuid}
          → (resolve_approver_user_id before requester resolution w).0 ≡ ok approver
          → is_storable approver ≡ false
          → Requested (err (ApprovalsError.db sqlx)) drawn_world
      no_settings :
          {approver : Uuid}
          → (resolve_approver_user_id before requester resolution w).0 ≡ ok approver
          → is_storable approver ≡ true
          → w.timezone ≡ none
          → Requested (err (ApprovalsError.db sqlx)) (stored_world approver)
      notified :
          {approver : Uuid} {user : User} {i : WorkflowInstance V} {timezone : String}
          → (resolve_approver_user_id before requester resolution w).0 ≡ ok approver
          → is_storable approver ≡ true
          → select (λ u. u.id) approver w.users ≡ some user
          → select (λ i. i.id) instance_id w.instances ≡ some i
          → w.timezone ≡ some timezone
          → Requested (ok (asked_of approver)) (record (stored_world approver) {
            notified =
                w.notified
                ++ (record {
                  approval = asked_of approver;
                  approver = user;
                  requester = requester;
                  catalog_item_name = named i;
                  org_timezone = timezone;
                })
                  ∷ [];
          })

    -- The run from the approver that was found.
    abbrev ask : Uuid → Exec (World V) ApprovalsError PendingApproval
    ask approver v =
        (map_error ApprovalsError.db
              (Approvals.create instance_id step_id approver (expiry v.now timeout))
            >>= λ approval. map_error ApprovalsError.db (Users.get_by_id approver) >>= λ user.
                map_error ApprovalsError.db (notify instance_id requester approval user)
                >>= λ done v. (ok approval, v))
          v

    -- The run from the settings that were read.
    abbrev tell :
        Uuid
        → User
        → WorkflowInstance V
        → Option String
        → Exec (World V) ApprovalsError PendingApproval
    tell approver user i settings =
        map_error ApprovalsError.db (
          expect sqlx settings >>= λ timezone. notify_new_approval (record {
            approval = asked_of approver;
            approver = user;
            requester = requester;
            catalog_item_name = named i;
            org_timezone = timezone;
          }))
        >>= λ done v. (ok (asked_of approver), v)

    told :
        (approver : Uuid) (user : User) (i : WorkflowInstance V)
        → (resolve_approver_user_id before requester resolution w).0 ≡ ok approver
        → is_storable approver ≡ true
        → select (λ u. u.id) approver w.users ≡ some user
        → select (λ i. i.id) instance_id w.instances ≡ some i
        → (settings : Option String) → w.timezone ≡ settings
        → let r = tell approver user i settings (stored_world approver) in Requested r.0 r.1
    unfolding ◌>>=◌ map_error notify_new_approval
    told approver user i h c u k none t = no_settings h c t
    told approver user i h c u k (some timezone) t = notified h c u k t

    stored :
        (approver : Uuid)
        → (resolve_approver_user_id before requester resolution w).0 ≡ ok approver
        → is_storable approver ≡ true
        → Requested (ask approver w).0 (ask approver w).1
    unfolding ◌>>=◌ map_error Approvals.create Approvals.insert_row Approvals.get_by_id new_v4
        Users.get_by_id notify notify_new_approval Instances.get_by_id Catalog.get_by_id
    stored approver h c =
        let (free, (on_instance, on_user)) = and_parts _ _ _ c in
        let (i, at_instance) = row_of _ on_instance in
        let (user, at_user) = row_of _ on_user in
        let back = select-fresh (λ a. a.id) (asked_of approver) w.approvals free in
        rw (expiry_lem w.now timeout, c, back, at_user, at_instance)
          (told approver user i h c at_user at_instance w.timezone refl)

    ask-Requested :
        (approver : Uuid)
        → (resolve_approver_user_id before requester resolution w).0 ≡ ok approver
        → Requested (ask approver w).0 (ask approver w).1
    unfolding ◌>>=◌ map_error Approvals.create Approvals.insert_row Approvals.get_by_id new_v4
        Users.get_by_id notify notify_new_approval Instances.get_by_id Catalog.get_by_id
    ask-Requested approver h = elim (Bool-cases (is_storable approver)) [
      | inr c ↦ rw c (refused h c)
      | inl c ↦ stored approver h c
    ]

    from_result :
        (r : Result ApprovalsError Uuid)
        → (resolve_approver_user_id before requester resolution w).0 ≡ r
        → Requested (continue ask r w).0 (continue ask r w).1
    from_result (err e) h = unresolved h
    from_result (ok approver) h = ask-Requested approver h

    pub create_for_instance_lem :
        let r = create_for_instance before instance_id step_id requester resolution timeout w in
        Requested r.0 r.1
    unfolding create_for_instance ◌>>=◌
    create_for_instance_lem =
        rw (resolve-still resolution)
          (from_result (resolve_approver_user_id before requester resolution w).0 refl)
