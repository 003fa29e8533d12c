-- ===== src/Db/Approvals.antt =====
-- crates/db/src/repositories/approvals.rs. The foreign keys are those of the migrations.
use servcat.Prelude.{
  String, ◌==◌, Bool, false, not, ◌&&◌, Option, none, some, List, ok, err, keep, any, if◌then◌else◌,
}
use servcat.Prelude.Int.{leb_ℤ}
use servcat.Model.User.{Uuid, Timestamp}
use servcat.Model.Approval.{ApprovalStatus, pending, PendingApproval, is_pending}
use servcat.Prelude.{List, keep}
use servcat.Prelude.Int.{leb_ℤ}
use servcat.Prelude.Sorting.{sort_by}
use servcat.Exec.{Exec, gets, expect, ◌>>=◌, ◌>>◌}
use servcat.Db.Table.{select, update_where, insert, is_taken}
use servcat.Db.World.{DbError, sqlx, not_found, World, new_v4}

-- status = 'pending' AND expires_at IS NOT NULL AND expires_at <= CURRENT_TIMESTAMP
abbrev pub has_passed : Option Timestamp → Timestamp → Bool
has_passed none now = false
has_passed (some t) now = leb_ℤ t now

unfoldable pub is_overdue : Timestamp → PendingApproval → Bool
unfolding is_pending leb_ℤ
is_overdue now a = is_pending a.status && has_passed a.expires_at now

-- WHERE id = ? AND status = 'pending'
unfoldable pub is_open : Uuid → PendingApproval → Bool
unfolding is_pending
is_open id a = a.id == id && is_pending a.status

unfoldable pub decided :
    ApprovalStatus → Option String → Timestamp → PendingApproval → PendingApproval
decided status comment now a = record a {
  status = status;
  comment = comment;
  decided_at = some now;
}

module _ {V : Type 0} where
  unfoldable pub get_by_id : Uuid → Exec (World V) DbError (Option PendingApproval)
  get_by_id id = gets (λ w. select (λ a. a.id) id w.approvals)

  -- The `INSERT`: the key is new, and the rows that the row refers to are there.
  unfoldable pub insert_row : PendingApproval → Exec (World V) DbError (Unit {0})
  insert_row r w =
      if not (is_taken (λ a. a.id) r.id w.approvals)
        && is_taken (λ i. i.id) r.workflow_instance_id w.instances
        && is_taken (λ u. u.id) r.approver_user_id w.users
      then (ok tt, record w { approvals = insert r w.approvals })
      else (err sqlx, w)

  unfoldable pub create :
      Uuid → String → Uuid → Option Timestamp → Exec (World V) DbError PendingApproval
  unfolding get_by_id insert_row new_v4
  create instance_id step_id approver expires_at = do
    id ← new_v4
    now ← gets (λ w. w.now)
    insert_row (record {
      id = id;
      workflow_instance_id = instance_id;
      step_id = step_id;
      approver_user_id = approver;
      status = pending;
      comment = none;
      decided_at = none;
      expires_at = expires_at;
      created_at = now;
    })
    row ← get_by_id id
    expect (not_found "pending_approval" id) row

  unfoldable pub list_expired : Exec (World V) DbError (List PendingApproval)
  unfolding is_overdue
  list_expired = gets (λ w. keep (is_overdue w.now) w.approvals)

  -- The result says whether a row was written.
  unfoldable pub decide : Uuid → ApprovalStatus → Option String → Exec (World V) DbError Bool
  unfolding is_open decided
  decide id status comment w = (
    ok (any (is_open id) w.approvals),
    record w { approvals = update_where (is_open id) (decided status comment w.now) w.approvals },
  )

  -- `ORDER BY created_at`; rows of the same second are in the order of the table.
  unfoldable pub list_pending_for_approver : Uuid → Exec (World V) DbError (List PendingApproval)
  list_pending_for_approver approver_user_id = gets (λ w.
      sort_by (λ (a : PendingApproval) (b : PendingApproval). leb_ℤ a.created_at b.created_at)
        (keep
          (λ (a : PendingApproval). a.approver_user_id == approver_user_id && is_pending a.status)
          w.approvals))
