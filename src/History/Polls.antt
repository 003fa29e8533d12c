-- ===== src/History/Polls.antt =====
-- What a poll of the expiry poller does to the approvals whose time has passed
-- (crates/approvals/src/poller.rs, crates/server/src/expiry_handler.rs).
use servcat.Prelude.{
  ℕ, ◌==◌, ==_iff, String, ◌≡◌, refl, ◌∙◌, ap, Bool, true, false, Bool-cases, inl, inr, Option,
  some, List, [], ◌∷◌, keep, any, arith, subst,
}
use servcat.Json.{Json}
use servcat.Model.User.{Uuid, Timestamp}
use servcat.Model.Approval.{expired, PendingApproval, is_pending}
use servcat.Exec.{◌>>=◌}
use servcat.Db.Table.{select, select-update_where}
use servcat.Db.World.{World}
use servcat.Db.Approvals
use servcat.Db.Approvals.{is_overdue, is_open, decided}
use servcat.Approvals.Decide.{approval_row, flip_self}
use servcat.Approvals.Poller.{hand_over, expire, expire_each, poll_once}
use servcat.History.Evolves.{Evolves}
use servcat.History.Approvals.{expire-Evolves, expire_each-Evolves}
use servcat.History.Orchestrator.{handle_expired-Evolves}
use servcat.Server.Env.{Env}
use servcat.Server.Requests.{handle, poll}
use servcat.Server.Orchestrator.{handle_expired}

overdue_listed :
    (now : Timestamp) (id : Uuid) (rows : List PendingApproval) (a : PendingApproval)
    → select (λ r. r.id) id rows ≡ some a
    → is_overdue now a ≡ true
    → any (λ r. r.id == id) (keep (is_overdue now) rows) ≡ true
unfolding select
overdue_listed now id [] a h k = absurd (cc)
overdue_listed now id (r ∷ rows) a h k = elim (Bool-cases (r.id == id)) [
  | inl same ↦
      let r_is : r ≡ a = ground arith in
      rw (subst (λ x. is_overdue now x ≡ true) {x = a} {y = r} (cc) k) (rw same refl)
  | inr other ↦
      let later = overdue_listed now id rows a (ground arith) k in
      elim (Bool-cases (is_overdue now r)) [ inl o ↦ rw (o, other) later | inr o ↦ rw o later ]
]

module _ {V : Type 0} where
  -- The approval is there, and is no longer pending.
  abbrev pub Present : World V → Uuid → Type 0
  Present w id = (b : PendingApproval) × (approval_row w id ≡ some b)

  abbrev pub Closed : World V → Uuid → Type 0
  Closed w id = (b : PendingApproval) × (approval_row w id ≡ some b) × (is_pending b.status ≡ false)

  Present-later : (w v : World V) (id : Uuid) → Evolves w v → Present w id → Present v id
  Present-later w v id h (a, found) =
      let (b, there, keeps) = h.approvals.at id a found in (b, there)

  Closed-later : (w v : World V) (id : Uuid) → Evolves w v → Closed w id → Closed v id
  Closed-later w v id h (a, found, closed) =
      let (b, there, keeps) = h.approvals.at id a found in
      (b, there, ap (λ x. is_pending x.status) (keeps.final closed) ∙ closed)

  expired-Closed :
      (w : World V) (id : Uuid) (comment : Option String)
      → Present w id
      → Closed (Approvals.decide id expired comment w).1 id
  unfolding Approvals.decide
  expired-Closed w id comment (a, found) = elim (Bool-cases (is_pending a.status)) [
    | inl h ↦ (
      decided expired comment w.now a,
      flip_self id expired comment w.now w.approvals a found h,
      unfold decided is_pending in refl,
    )
    | inr h ↦ (
      a,
      rw
          (
            select-update_where (λ r. r.id) (is_open id) (decided expired comment w.now)
                (λ r. unfold decided in refl) id w.approvals,
            found,
          )
          (unfold is_open in ground arith),
      h,
    )
  ]

  module _ (handler : PendingApproval → World V → World V)
      (keeps : (a : PendingApproval) (w : World V) → Evolves w (handler a w)) where
    hand_over-Closed :
        (a : PendingApproval) (flipped : Bool) (w : World V) (id : Uuid)
        → Closed w id
        → Closed (hand_over handler a flipped w).1 id
    unfolding hand_over
    hand_over-Closed a true w id h = Closed-later w (handler a w) id (keeps a w) h
    hand_over-Closed a false w id h = h

    expire-Closed :
        (a : PendingApproval) (w : World V) → Present w a.id → Closed (expire handler a w).1 a.id
    unfolding expire ◌>>=◌ Approvals.decide
    expire-Closed a w h =
        hand_over-Closed a (any (is_open a.id) w.approvals) _ a.id
          (unfold Approvals.decide in expired-Closed w a.id _ h)

    expire_each_cons :
        (a : PendingApproval) (rest : List PendingApproval) (w : World V)
        → (expire_each handler (a ∷ rest) w).1 ≡ (expire_each handler rest (expire handler a w).1).1
    unfolding expire_each expire ◌>>=◌ Approvals.decide hand_over
    expire_each_cons a rest w = elim (Bool-cases (any (is_open a.id) w.approvals)) [
      | inl h ↦ rw h refl
      | inr h ↦ rw h refl
    ]

    expire_each-Closed :
        (id : Uuid) (rows : List PendingApproval) (w : World V)
        → any (λ r. r.id == id) rows ≡ true
        → Present w id
        → Closed (expire_each handler rows w).1 id
    expire_each-Closed id [] w h p = absurd (cc)
    expire_each-Closed id (a ∷ rest) w h p =
        rw (expire_each_cons a rest w) (elim (Bool-cases (a.id == id)) [
          | inl same ↦
              Closed-later (expire handler a w).1 _ id
                ((expire_each-Evolves handler keeps rest).at (expire handler a w).1)
                (subst (λ i. Closed (expire handler a w).1 i) ((==_iff a.id id).0 same)
                  (expire-Closed a w (rw ((==_iff a.id id).0 same) p)))
          | inr other ↦
              expire_each-Closed id rest (expire handler a w).1 (ground arith) (
                Present-later w (expire handler a w).1 id ((expire-Evolves handler keeps a).at w) p)
        ])

module _ {V : Type 0} ⦃json : Json V⦄ (env : Env V) (fuel : ℕ) where
  -- After a poll no approval is left open past its time: each one that was pending and whose time
  -- had passed is still stored under its key, and is no longer pending.
  pub poll-Closed :
      (w : World V) (id : Uuid) (a : PendingApproval)
      → approval_row w id ≡ some a
      → is_overdue w.now a ≡ true
      → Closed (handle env fuel poll w) id
  unfolding handle poll_once ◌>>=◌ Approvals.list_expired
  poll-Closed w id a found overdue =
      expire_each-Closed (handle_expired env fuel) (handle_expired-Evolves env fuel) id
        (keep (is_overdue w.now) w.approvals) w
        (overdue_listed w.now id w.approvals a found overdue) (a, found)
