-- ===== src/Approvals/Race/Turns.antt =====
-- The turns of the callers that race for one approval (crates/approvals/src/service.rs,
-- crates/approvals/src/poller.rs).
use servcat.Prelude.{
  ℕ, zero, suc, ◌==◌, String, ◌≡◌, refl, sym, Bool, true, false, Bool-cases, inl, inr, Option, none,
  some, List, [], ◌∷◌, any, keep, All, arith,
}
use servcat.Model.User.{Uuid, Timestamp}
use servcat.Model.Approval.{
  ApprovalStatus, approve, reject, expired, PendingApproval, ApprovalDecision, is_pending,
}
use servcat.Db.Table.{update_where}
use servcat.Db.World.{World}
use servcat.Db.Approvals.{is_open, is_overdue, decided}
use servcat.Approvals.Service.{check, status_of}
use servcat.Approvals.Decide.{approval_row, any_open, flip_self}
use servcat.Approvals.Race.{
  Caller, reading, writing, polling, expiring, won, refused, idle, checked, write_status, advance,
  advance_at, run, wins, winners, WonAs, Race, undecided, settled,
}

flip-closed :
    (id : Uuid) (status : ApprovalStatus) (comment : Option String) (now : Timestamp)
    (rows : List PendingApproval)
    → is_pending status ≡ false
    → any (is_open id) (update_where (is_open id) (decided status comment now) rows) ≡ false
unfolding update_where is_open decided
flip-closed id status comment now [] h = refl
flip-closed id status comment now (r ∷ rows) h =
    ground (arith, flip-closed id status comment now rows h)

flip-unchanged :
    (p : PendingApproval → Bool) (f : PendingApproval → PendingApproval)
    (rows : List PendingApproval)
    → any p rows ≡ false
    → update_where p f rows ≡ rows
unfolding update_where
flip-unchanged p f [] h = refl
flip-unchanged p f (r ∷ rows) h = ground (arith, flip-unchanged p f rows)

status_of-closed : (d : ApprovalDecision) → is_pending (status_of d) ≡ false
unfolding status_of is_pending
status_of-closed approve = refl
status_of-closed reject = refl

no_winner : (status : ApprovalStatus) (cs : List Caller) → winners cs ≡ 0 → All (WonAs status) cs
no_winner status [] h = tt
no_winner status (reading x y z ∷ cs) h = (tt, no_winner status cs (omega arith))
no_winner status (writing x y ∷ cs) h = (tt, no_winner status cs (omega arith))
no_winner status (polling ∷ cs) h = (tt, no_winner status cs (omega arith))
no_winner status (expiring ∷ cs) h = (tt, no_winner status cs (omega arith))
no_winner status (won x ∷ cs) h = absurd (omega arith)
no_winner status (refused x ∷ cs) h = (tt, no_winner status cs (omega arith))
no_winner status (idle ∷ cs) h = (tt, no_winner status cs (omega arith))

module _ {V : Type 0} (id : Uuid) where
  -- What one turn does: nothing to the world and to who has won, or it takes the pending row.
  data Turn (w : World V) (before after : ℕ) (Won Won' : ApprovalStatus → Type 0) (v : World V)
      : Type 0 where
    quiet :
        v ≡ w
        → after ≡ before
        → ((s : ApprovalStatus) → Won s → Won' s)
        → Turn w before after Won Won' v
    takes :
        {a b : PendingApproval}
        → approval_row w id ≡ some a
        → is_pending a.status ≡ true
        → approval_row v id ≡ some b
        → is_pending b.status ≡ false
        → any (is_open id) v.approvals ≡ false
        → (before ≡ 0 → (after ≡ 1) × Won' b.status)
        → Turn w before after Won Won' v

  abbrev CallerTurn : World V → Caller → Caller → World V → Type 0
  CallerTurn w c c' v = Turn w (wins c) (wins c') (λ s. WonAs s c) (λ s. WonAs s c') v

  abbrev CallersTurn : World V → List Caller → List Caller → World V → Type 0
  CallersTurn w cs cs' v =
      Turn w (winners cs) (winners cs') (λ s. All (WonAs s) cs) (λ s. All (WonAs s) cs') v

  checked-Turn :
      (w : World V) (user : Uuid) (d : ApprovalDecision) (comment : Option String)
      (o : Option PendingApproval)
      → CallerTurn w (reading user d comment) (checked d comment (check id user o)) w
  unfolding checked check
  checked-Turn w user d comment none = quiet refl refl (λ s h. tt)
  checked-Turn w user d comment (some a) = elim (Bool-cases (a.approver_user_id == user)) [
    | inl asked ↦ elim (Bool-cases (is_pending a.status)) [
      | inl h ↦ rw (asked, h) (quiet refl refl (λ s k. tt))
      | inr h ↦ rw (asked, h) (quiet refl refl (λ s k. tt))
    ]
    | inr other ↦ rw other (quiet refl refl (λ s k. tt))
  ]

  write_status-Turn :
      (c : Caller) (status : ApprovalStatus) (comment : Option String) (w : World V)
      (a : PendingApproval)
      → wins c ≡ 0
      → is_pending status ≡ false
      → approval_row w id ≡ some a
      → (is_pending a.status ≡ false → any (is_open id) w.approvals ≡ false)
      → CallerTurn w c (write_status id status comment w).0 (write_status id status comment w).1
  unfolding write_status
  write_status-Turn c status comment w a none_won final found rest =
      elim (Bool-cases (is_pending a.status)) [
        | inl h ↦ rw (any_open id w.approvals a found h) (
            takes found h (flip_self id status comment w.now w.approvals a found h)
              (unfold decided in final) (flip-closed id status comment w.now w.approvals final)
              (λ z. (refl, unfold decided in refl)))
        | inr h ↦
            rw
              (
                rest h,
                flip-unchanged (is_open id) (decided status comment w.now) w.approvals (rest h),
              )
              (quiet refl (sym none_won) (λ s k. tt))
      ]

  advance-Turn :
      (c : Caller) (w : World V) (a : PendingApproval)
      → approval_row w id ≡ some a
      → (is_pending a.status ≡ false → any (is_open id) w.approvals ≡ false)
      → CallerTurn w c (advance id c w).0 (advance id c w).1
  unfolding advance
  advance-Turn (reading user d comment) w a found rest =
      checked-Turn w user d comment (approval_row w id)
  advance-Turn (writing d comment) w a found rest =
      write_status-Turn (writing d comment) (status_of d) comment w a refl (status_of-closed d)
        found rest
  advance-Turn polling w a found rest =
      elim (Bool-cases (any (λ a. a.id == id) (keep (is_overdue w.now) w.approvals))) [
        | inl h ↦ rw h (quiet refl refl (λ s k. tt))
        | inr h ↦ rw h (quiet refl refl (λ s k. tt))
      ]
  advance-Turn expiring w a found rest =
      write_status-Turn expiring expired (some "auto-expired: approval timeout reached") w a refl
        (unfold is_pending in refl) found rest
  advance-Turn (won status) w a found rest = quiet refl refl (λ s h. h)
  advance-Turn (refused e) w a found rest = quiet refl refl (λ s h. h)
  advance-Turn idle w a found rest = quiet refl refl (λ s h. h)

  first-Turn :
      (c c' : Caller) (cs : List Caller) (w v : World V)
      → CallerTurn w c c' v
      → CallersTurn w (c ∷ cs) (c' ∷ cs) v
  first-Turn c c' cs w v (quiet same count keeps) =
      quiet same (omega arith) (λ s h. (keeps s h.0, h.1))
  first-Turn c c' cs w v (takes found open_a found' closed_b none_open wins_b) =
      takes found open_a found' closed_b none_open
        (λ z. let p = wins_b (omega arith) in (omega arith, (p.1, no_winner _ cs (omega arith))))

  later-Turn :
      (c : Caller) (cs cs' : List Caller) (w v : World V)
      → CallersTurn w cs cs' v
      → CallersTurn w (c ∷ cs) (c ∷ cs') v
  later-Turn c cs cs' w v (quiet same count keeps) =
      quiet same (omega arith) (λ s h. (h.0, keeps s h.1))
  later-Turn c cs cs' w v (takes {b = b} found open_a found' closed_b none_open wins_b) =
      takes found open_a found' closed_b none_open (λ z.
        let p = wins_b (omega arith) in
        (omega arith, ((no_winner b.status (c ∷ []) (omega arith)).0, p.1)))

  advance_at-Turn :
      (i : ℕ) (cs : List Caller) (w : World V) (a : PendingApproval)
      → approval_row w id ≡ some a
      → (is_pending a.status ≡ false → any (is_open id) w.approvals ≡ false)
      → CallersTurn w cs (advance_at id i cs w).0 (advance_at id i cs w).1
  unfolding advance_at
  advance_at-Turn i [] w a found rest = quiet refl refl (λ s h. h)
  advance_at-Turn zero (c ∷ cs) w a found rest =
      first-Turn c _ cs w _ (advance-Turn c w a found rest)
  advance_at-Turn (suc i) (c ∷ cs) w a found rest =
      later-Turn c cs _ w _ (advance_at-Turn i cs w a found rest)

  Turn-Race :
      (cs cs' : List Caller) (w v : World V) → Race id cs w → CallersTurn w cs cs' v → Race id cs' v
  Turn-Race cs cs' w v (undecided found h none_won) (quiet same count keeps) =
      rw same (undecided found h (omega arith))
  Turn-Race cs cs' w v (settled found h none_open one all) (quiet same count keeps) =
      rw same (settled found h none_open (omega arith) (keeps _ all))
  Turn-Race cs cs' w v (undecided found h none_won) (takes f2 h2 found' closed_b none_open wins_b) =
      settled found' closed_b none_open (wins_b none_won).0 (wins_b none_won).1
  Turn-Race cs cs' w v (settled found h none_open one all)
        (takes f2 h2 found' closed_b none_open' wins_b) =
      absurd (cc)

  Race-row :
      (cs : List Caller) (w : World V)
      → Race id cs w
      → (a : PendingApproval) × (approval_row w id ≡ some a)
        × (is_pending a.status ≡ false → any (is_open id) w.approvals ≡ false)
  Race-row cs w (undecided {a = a} found h none_won) = (a, found, λ k. absurd (cc))
  Race-row cs w (settled {a = a} found h none_open one all) = (a, found, λ k. none_open)

  -- Whatever number of `decide` calls and polls race for one approval, and in whatever order their
  -- queries are made, at most one of them writes the approval: it is pending as long as nobody has
  -- written it, then exactly one caller has, and the row has the status that this caller wrote.
  pub run-Race :
      (schedule : List ℕ) (cs : List Caller) (w : World V)
      → Race id cs w
      → Race id (run id schedule cs w).0 (run id schedule cs w).1
  unfolding run
  run-Race [] cs w r = r
  run-Race (i ∷ schedule) cs w r =
      let row = Race-row cs w r in
      run-Race schedule _ _ (Turn-Race cs _ w _ r (advance_at-Turn i cs w row.0 row.1 row.2))
