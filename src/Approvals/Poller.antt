-- ===== src/Approvals/Poller.antt =====
-- crates/approvals/src/poller.rs
use servcat.Prelude.{Bool, true, false, some, List, [], ◌∷◌}
use servcat.Model.Approval.{expired, PendingApproval}
use servcat.Exec.{Exec, pure, modify, ◌>>=◌, ◌>>◌}
use servcat.Db.World.{DbError, World}
use servcat.Db.Approvals

-- The handler reports no failure to the poller.
module _ {V : Type 0} (handle_expired : PendingApproval → World V → World V) where
  unfoldable pub hand_over : PendingApproval → Bool → Exec (World V) DbError (Unit {0})
  hand_over approval true = modify (handle_expired approval)
  hand_over approval false = pure tt

  unfoldable pub expire : PendingApproval → Exec (World V) DbError (Unit {0})
  unfolding hand_over
  expire approval = do
    flipped ← Approvals.decide approval.id expired (some "auto-expired: approval timeout reached")
    hand_over approval flipped

  unfoldable pub expire_each : List PendingApproval → Exec (World V) DbError (Unit {0})
  unfolding expire
  expire_each [] = pure tt
  expire_each (approval ∷ rest) = expire approval >> expire_each rest

  unfoldable pub poll_once : Exec (World V) DbError (Unit {0})
  unfolding expire_each
  poll_once = do expired_rows ← Approvals.list_expired; expire_each expired_rows
