-- ===== src/Approvals/Race.antt =====
-- Decisions and the expiry poller racing for one approval: any number of callers, whose queries
-- interleave in any order (crates/approvals/src/service.rs, crates/approvals/src/poller.rs,
-- crates/db/src/repositories/approvals.rs).
pub mod Turns
use servcat.Prelude.{
  ℕ, zero, suc, ◌+◌, ◌==◌, String, ◌≡◌, refl, ap, Bool, true, false, ◌||◌, Bool-cases, ◌⊎◌, inl,
  inr, Option, none, some, List, [], ◌∷◌, Result, ok, err, any, keep, All, arith, if◌then◌else◌,
}
use servcat.Model.User.{Uuid, Timestamp}
use servcat.Model.Approval.{
  ApprovalStatus, pending, approved, rejected, expired, PendingApproval, ApprovalDecision, approve,
  reject, is_pending,
}
use servcat.Db.Table.{select, update_where}
use servcat.Db.World.{World}
use servcat.Db.Approvals
use servcat.Db.Approvals.{is_open, is_overdue, decided}
use servcat.Approvals.Resolution.{ApprovalsError, already_decided}
use servcat.Approvals.Service.{check, status_of}
use servcat.Approvals.Decide.{approval_row, any_open, flip_self}

-- Where a caller stands between its queries.
pub data Caller : Type 0 where
  -- `decide` before it reads the row: the user, the decision and the comment
  reading : Uuid → ApprovalDecision → Option String → Caller
  -- `decide` before it writes
  writing : ApprovalDecision → Option String → Caller
  -- the poller before it lists the expired approvals, and before it writes
  polling expiring : Caller
  -- the update wrote the row, with this status
  won : ApprovalStatus → Caller
  refused : ApprovalsError → Caller
  -- the poller found nothing to do
  idle : Caller

unfoldable pub checked :
    ApprovalDecision → Option String → Result ApprovalsError PendingApproval → Caller
checked d comment (ok a) = writing d comment
checked d comment (err e) = refused e

module _ {V : Type 0} (id : Uuid) where
  -- The UPDATE, and what its count of rows says to the caller.
  unfoldable pub write_status : ApprovalStatus → Option String → World V → Caller × World V
  write_status status comment w = (
    if any (is_open id) w.approvals then won status else refused (already_decided id),
    record w { approvals = update_where (is_open id) (decided status comment w.now) w.approvals },
  )

  -- One query of one caller.
  unfoldable pub advance : Caller → World V → Caller × World V
  unfolding checked write_status is_overdue check
  advance (reading user d comment) w = (checked d comment (check id user (approval_row w id)), w)
  advance (writing d comment) w = write_status (status_of d) comment w
  advance polling w =
      (if any (λ a. a.id == id) (keep (is_overdue w.now) w.approvals) then expiring else idle, w)
  advance expiring w = write_status expired (some "auto-expired: approval timeout reached") w
  advance (won status) w = (won status, w)
  advance (refused e) w = (refused e, w)
  advance idle w = (idle, w)

  unfoldable pub advance_at : ℕ → List Caller → World V → List Caller × World V
  unfolding advance
  advance_at i [] w = ([], w)
  advance_at zero (c ∷ cs) w = let (c', w') = advance c w in (c' ∷ cs, w')
  advance_at (suc i) (c ∷ cs) w = let (cs', w') = advance_at i cs w in (c ∷ cs', w')

  -- The callers make their queries in the order of a schedule.
  unfoldable pub run : List ℕ → List Caller → World V → List Caller × World V
  unfolding advance_at
  run [] cs w = (cs, w)
  run (i ∷ schedule) cs w = let (cs', w') = advance_at i cs w in run schedule cs' w'

abbrev pub wins : Caller → ℕ
wins (won status) = 1
wins c = 0

abbrev pub winners : List Caller → ℕ
winners [] = 0
winners (c ∷ cs) = wins c + winners cs

-- A caller that won has written this status.
abbrev pub WonAs : ApprovalStatus → Caller → Type 0
WonAs status (won s) = s ≡ status
WonAs status c = Unit {0}

-- Either nobody has won and the approval is pending, or one caller has, the approval has the
-- status that it wrote, and no pending row is left under the key.
pub data Race {V : Type 0} (id : Uuid) (cs : List Caller) (w : World V) : Type 0 where
  undecided :
      {a : PendingApproval}
      → approval_row w id ≡ some a
      → is_pending a.status ≡ true
      → winners cs ≡ 0
      → Race id cs w
  settled :
      {a : PendingApproval}
      → approval_row w id ≡ some a
      → is_pending a.status ≡ false
      → any (is_open id) w.approvals ≡ false
      → winners cs ≡ 1
      → All (WonAs a.status) cs
      → Race id cs w
