-- ===== src/Approvals/Decide.antt =====
-- `decide` on every branch (crates/approvals/src/service.rs).
use servcat.Prelude.{
  ◌==◌, ==_iff, String, ◌≡◌, ◌≢◌, refl, true, false, Bool-cases, inl, inr, Option, none, some, List,
  [], ◌∷◌, Result, ok, err, any, arith,
}
use servcat.Model.User.{Uuid, Timestamp}
use servcat.Model.Approval.{
  ApprovalStatus, approved, rejected, PendingApproval, ApprovalDecision, approve, reject,
  is_pending,
}
use servcat.Exec.{◌>>=◌, map_error, continue}
use servcat.Db.Table.{select, update_where, updated, select-key, select-update_where}
use servcat.Db.World.{World}
use servcat.Db.Approvals
use servcat.Db.Approvals.{is_open, decided}
use servcat.Approvals.Resolution.{ApprovalsError, already_decided, not_the_approver, not_found}
use servcat.Approvals.Service.{check, status_of, report, decide}

-- The row of an approval.
abbrev pub approval_row : {V : Type 0} → World V → Uuid → Option PendingApproval
approval_row w id = select (λ a. a.id) id w.approvals

-- `v` is `w` with one approval's row replaced.
pub record Replaces {V : Type 0} (w v : World V) (id : Uuid) (b : PendingApproval) : Type 0 where
  pub written : approval_row v id ≡ some b
  pub others : (j : Uuid) → id ≢ j → approval_row v j ≡ approval_row w j
  pub rest : v ≡ record w { approvals = v.approvals }

-- The status that a decision is stored as.
pub data StoredAs : ApprovalDecision → ApprovalStatus → Type 0 where
  approves : StoredAs approve approved
  rejects : StoredAs reject rejected

status_of-StoredAs : (d : ApprovalDecision) → StoredAs d (status_of d)
unfolding status_of
status_of-StoredAs approve = approves
status_of-StoredAs reject = rejects

pub data Decided {V : Type 0} (w : World V) (id user : Uuid) (d : ApprovalDecision)
    (comment : Option String) : Result ApprovalsError PendingApproval → World V → Type 0 where
  missing : approval_row w id ≡ none → Decided w id user d comment (err (not_found id)) w
  not_asked :
      {a : PendingApproval}
      → approval_row w id ≡ some a
      → a.approver_user_id ≢ user
      → Decided w id user d comment (err (not_the_approver id user)) w
  closed :
      {a : PendingApproval}
      → approval_row w id ≡ some a
      → a.approver_user_id ≡ user
      → is_pending a.status ≡ false
      → Decided w id user d comment (err (already_decided id)) w
  writes :
      {a b : PendingApproval} {v : World V} {status : ApprovalStatus}
      → approval_row w id ≡ some a
      → a.approver_user_id ≡ user
      → is_pending a.status ≡ true
      → StoredAs d status
      → b ≡ record a { status = status; comment = comment; decided_at = some w.now }
      → Replaces w v id b
      → Decided w id user d comment (ok b) v

pub any_open :
    (id : Uuid) (rows : List PendingApproval) (a : PendingApproval)
    → select (λ r. r.id) id rows ≡ some a
    → is_pending a.status ≡ true
    → any (is_open id) rows ≡ true
unfolding select is_open
any_open id [] a h p = cc
any_open id (r ∷ rows) a h p = ground (arith, any_open id rows a)

module _ (id : Uuid) (status : ApprovalStatus) (comment : Option String) (now : Timestamp) where
  abbrev flip : List PendingApproval → List PendingApproval
  flip rows = update_where (is_open id) (decided status comment now) rows

  select-flip :
      (j : Uuid) (rows : List PendingApproval)
      → select (λ r. r.id) j (flip rows)
        ≡ updated (is_open id) (decided status comment now) (select (λ r. r.id) j rows)
  select-flip j rows =
      select-update_where (λ r. r.id) (is_open id) (decided status comment now)
        (λ a. unfold decided in refl) j rows

  updated_open :
      (a : PendingApproval)
      → a.id ≡ id
      → is_pending a.status ≡ true
      → updated (is_open id) (decided status comment now) (some a)
        ≡ some (decided status comment now a)
  unfolding is_open
  updated_open a e p = ground arith

  pub flip_self :
      (rows : List PendingApproval) (a : PendingApproval)
      → select (λ r. r.id) id rows ≡ some a
      → is_pending a.status ≡ true
      → select (λ r. r.id) id (flip rows) ≡ some (decided status comment now a)
  flip_self rows a h p =
      rw (select-flip id rows, h) (updated_open a (select-key (λ r. r.id) id rows a h) p)

  updated_other :
      (j : Uuid) (o : Option PendingApproval)
      → ((a : PendingApproval) → o ≡ some a → a.id ≡ j)
      → id ≢ j
      → updated (is_open id) (decided status comment now) o ≡ o
  unfolding is_open
  updated_other j none key ne = refl
  updated_other j (some a) key ne = ground (arith, key a)

  pub flip_other :
      (j : Uuid) (rows : List PendingApproval)
      → id ≢ j
      → select (λ r. r.id) j (flip rows) ≡ select (λ r. r.id) j rows
  flip_other j rows ne =
      rw (select-flip j rows)
        (updated_other j (select (λ r. r.id) j rows) (select-key (λ r. r.id) j rows) ne)

module _ {V : Type 0} (w : World V) (id user : Uuid) (d : ApprovalDecision)
    (comment : Option String) where
  abbrev after : World V
  after = record w {
    approvals = update_where (is_open id) (decided (status_of d) comment w.now) w.approvals;
  }

  -- The run from the row that was read.
  abbrev run_from : Option PendingApproval → Result ApprovalsError PendingApproval × World V
  run_from o =
      continue
        (λ a. map_error ApprovalsError.db (Approvals.decide id (status_of d) comment) >>= report id)
        (check id user o) w

  writes-Decided :
      (a : PendingApproval)
      → approval_row w id ≡ some a
      → a.approver_user_id ≡ user
      → is_pending a.status ≡ true
      → let r =
          (map_error ApprovalsError.db (Approvals.decide id (status_of d) comment) >>= report id)
            w in
        Decided w id user d comment r.0 r.1
  unfolding ◌>>=◌ map_error Approvals.decide report Approvals.get_by_id
  writes-Decided a found asked open_a =
      rw (any_open id w.approvals a found open_a, report)
        (rw (flip_self id (status_of d) comment w.now w.approvals a found open_a) (
          writes found asked open_a (status_of-StoredAs d) (unfold decided in refl) (record {
            written = flip_self id (status_of d) comment w.now w.approvals a found open_a;
            others = λ j ne. flip_other id (status_of d) comment w.now j w.approvals ne;
            rest = refl;
          })))

  checked-Decided :
      (o : Option PendingApproval)
      → approval_row w id ≡ o
      → Decided w id user d comment (run_from o).0 (run_from o).1
  unfolding check
  checked-Decided none e = missing e
  checked-Decided (some a) e = elim (Bool-cases (a.approver_user_id == user)) [
    | inl asked ↦ elim (Bool-cases (is_pending a.status)) [
      | inl open_a ↦ rw (asked, open_a) (writes-Decided a e ((==_iff _ user).0 asked) open_a)
      | inr done ↦ rw (asked, done) (closed e ((==_iff _ user).0 asked) done)
    ]
    | inr other ↦ rw other (not_asked e (λ same. ground arith))
  ]

  -- `decide` refuses a missing approval, a user who is not the approver and an approval that is no
  -- longer pending, in this order and without a write. It stores a pending approval of this
  -- approver as approved or rejected, as the decision says, with the comment and the time, changes
  -- no other row and nothing else, and returns the written row.
  pub decide_lem :
      Decided w id user d comment (decide id user d comment w).0 (decide id user d comment w).1
  unfolding decide ◌>>=◌ map_error Approvals.get_by_id
  decide_lem = checked-Decided (approval_row w id) refl
