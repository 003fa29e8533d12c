-- ===== src/Engine/Valid.antt =====
-- Graphs in which every reference names a step and no cycle is made of branch steps alone: on
-- these the engine never fails (crates/workflow-engine/src/lib.rs).
use package.text.Mathlib.TextEquality.{eq_iff}
use package.text.Mathlib.TextPositions.{eq_refl}
use servcat.Prelude.{
  ℕ, ◌+◌, ◌≤◌, ◌<◌, String, ◌≡◌, ◌=ₛ◌, refl, subst, Option, some, List, [], ◌∷◌, ok, All, ◌>>=◌,
  find-All, find-passes, arith,
}
use servcat.Prelude.Int.{ℤ}
use servcat.Map
use servcat.Json.{Json}
use servcat.Model.Workflow.{
  ApproverResolution, StepKind, question, branch, wait_for_approval, submit_ticket, end, Step,
  WorkflowGraph, step,
}
use servcat.Model.Approval.{ApprovalDecision, approve, reject}
use servcat.Engine.{
  Answers, Outcome, awaiting_answer, awaiting_approval, ready_to_submit_ticket, finished, Advance,
  max_auto_steps, auto_advance, start, submit_answer, resume_after_approval,
  resume_after_ticket_dispatch,
}
use servcat.Engine.Walk.{
  IsStep, StopsAs, asks, waits, submits, Hop, on_true, on_false, Walk, stay, hop, Reaches, stops,
  leaves, goes_on,
}
use servcat.Engine.Advance.{auto_advance-iff-Reaches}

-- The steps that a step refers to.
abbrev pub targets : {V : Type 0} → StepKind V → List String
targets (question key input required options next) = next ∷ []
targets (branch c t f) = t ∷ f ∷ []
targets (wait_for_approval r a b timeout) = a ∷ b ∷ []
targets (submit_ticket next) = next ∷ []
targets (end o) = []

-- A branch lowers the rank of the step.
abbrev pub Lowers : {V : Type 0} → (String → ℕ) → String → StepKind V → Type 0
Lowers rank id (branch c t f) = (rank t < rank id) × (rank f < rank id)
Lowers rank id k = Unit {0}

abbrev pub Has : {V : Type 0} → WorkflowGraph V → String → Type 0
Has {V} g id = (s : Step V) × (step g id ≡ some s)

pub record IsClosed {V : Type 0} (g : WorkflowGraph V) : Type 0 where
  pub entry : Has g g.entry_step_id
  pub steps : All (λ s. All (Has g) (targets s.kind)) g.steps

pub record IsRanked {V : Type 0} (rank : String → ℕ) (g : WorkflowGraph V) : Type 0 where
  pub low : (id : String) → rank id < max_auto_steps
  pub steps : All (λ s. Lowers rank s.id s.kind) g.steps

-- What a caller holds after a successful call: a step of the graph, and what is due there.
pub record IsDue {V : Type 0} (g : WorkflowGraph V) (at : String × Outcome) : Type 0 where
  pub kind : StepKind V
  pub there : IsStep g at.0 kind
  pub due : StopsAs kind at.1

abbrev pub Succeeds : {V : Type 0} → WorkflowGraph V → Advance → Type 0
Succeeds g r = (at : String × Outcome) × (r ≡ ok at) × IsDue g at

-- What a caller brings to the call that is due.
abbrev pub Input : Type 0 → Outcome → Type 0
Input V (awaiting_answer key) = V
Input V (awaiting_approval r timeout) = ApprovalDecision
Input V ready_to_submit_ticket = Unit {0}
Input V (finished o) = ⊥

-- The call of the engine that is due after an outcome.
abbrev pub call_due :
    {V : Type 0} ⦃json : Json V⦄
    → WorkflowGraph V
    → String
    → Answers V
    → (o : Outcome) → Input V o
    → Advance
call_due g id answers (awaiting_answer key) v = (submit_answer g id answers key v).0
call_due g id answers (awaiting_approval r timeout) d = resume_after_approval g id answers d
call_due g id answers ready_to_submit_ticket input = resume_after_ticket_dispatch g id answers
call_due g id answers (finished o) input = absurd input

module _ {V : Type 0} (g : WorkflowGraph V) where
  pub step-id : (id : String) (s : Step V) → step g id ≡ some s → s.id ≡ id
  unfolding step
  step-id id s e = (eq_iff s.id id).0 (find-passes (λ t. t.id =ₛ id) g.steps s e)

  targets-Has :
      IsClosed g → (id : String) (k : StepKind V) → IsStep g id k → All (Has g) (targets k)
  unfolding step
  targets-Has closed id k s =
      subst (λ x. All (Has g) (targets x)) s.has_kind
        (find-All (λ t. All (Has g) (targets t.kind)) (λ t. t.id =ₛ id) g.steps s.at closed.steps
          s.found)

  ranked-Lowers :
      (rank : String → ℕ)
      → IsRanked rank g
      → (id : String) (k : StepKind V) → IsStep g id k
      → Lowers rank id k
  unfolding step
  ranked-Lowers rank ranked id k s =
      subst (λ x. Lowers rank x k) (step-id id s.at s.found)
        (subst (λ x. Lowers rank s.at.id x) s.has_kind
          (find-All (λ t. Lowers rank t.id t.kind) (λ t. t.id =ₛ id) g.steps s.at ranked.steps
            s.found))

module _ {V : Type 0} ⦃json : Json V⦄ (g : WorkflowGraph V) where
  Hop-Has : IsClosed g → {answers : Answers V} {a b : String} → Hop g answers a b → Has g b
  Hop-Has closed {answers} {a} (on_true {t = t} {f = f} {c = c} s h) =
      (targets-Has g closed a (branch c t f) s).0
  Hop-Has closed {answers} {a} (on_false {t = t} {f = f} {c = c} s h) =
      (targets-Has g closed a (branch c t f) s).1.0

  Walk-Has :
      IsClosed g
      → {answers : Answers V} {n : ℕ} {a b : String} → Walk g answers n a b
      → Has g a
      → Has g b
  Walk-Has closed stay h = h
  Walk-Has closed (hop p w) h = Walk-Has closed w (Hop-Has closed p)

  module _ (rank : String → ℕ) (ranked : IsRanked rank g) where
    Hop-rank : {answers : Answers V} {a b : String} → Hop g answers a b → rank b < rank a
    Hop-rank {a = a} (on_true {t = t} {f = f} {c = c} s h) =
        (ranked-Lowers g rank ranked a (branch c t f) s).0
    Hop-rank {a = a} (on_false {t = t} {f = f} {c = c} s h) =
        (ranked-Lowers g rank ranked a (branch c t f) s).1

    Walk-rank :
        {answers : Answers V} {n : ℕ} {a b : String} → Walk g answers n a b → n + rank b ≤ rank a
    Walk-rank stay = omega arith
    Walk-rank (hop p w) = omega (arith, Hop-rank p, Walk-rank w)

    module _ (closed : IsClosed g) where
      Reaches-Succeeds :
          {answers : Answers V} (id : String) (r : Advance)
          → Has g id
          → Reaches g answers max_auto_steps id r
          → Succeeds g r
      Reaches-Succeeds id r h (stops {last = last} {kind = kind} {o = o} lt w s d) =
          ((last, o), refl, record { kind = kind; there = s; due = d })
      Reaches-Succeeds id r h (leaves {last = last} lt w e) = absurd (missing (Walk-Has closed w h))
        where
          missing : Has g last → ⊥
          missing (s, f) = cc
      Reaches-Succeeds id r h (goes_on w) = absurd (omega (arith, ranked.low id, Walk-rank w))

      advance-Succeeds :
          (answers : Answers V) (id : String) → Has g id → Succeeds g (auto_advance g id answers)
      advance-Succeeds answers id h =
          Reaches-Succeeds id (auto_advance g id answers) h
            ((auto_advance-iff-Reaches g answers id (auto_advance g id answers)).0 refl)

      -- `start` succeeds, and leaves the caller at a step of the graph with what is due there.
      pub start-Succeeds : Succeeds g (start g)
      unfolding start
      start-Succeeds = rw (closed.entry.1, start) (advance-Succeeds [] g.entry_step_id closed.entry)

      next-Has :
          (id : String) (k : StepKind V) {next : String} {rest : List String}
          → IsStep g id k
          → targets k ≡ next ∷ rest
          → Has g next
      next-Has id k {next} {rest} s e = (subst (All (Has g)) e (targets-Has g closed id k s)).0

      module _ (id : String) (answers : Answers V) where
        asks-Succeeds :
            (key : String) (v : V) (k : StepKind V)
            → IsStep g id k
            → StopsAs k (awaiting_answer key)
            → Succeeds g (submit_answer g id answers key v).0
        unfolding submit_answer
        asks-Succeeds key v k s (asks {next = next}) =
            rw (s.found, ◌>>=◌)
              (rw s.has_kind (
                rw (eq_refl key)
                  (advance-Succeeds (Map.insert answers key v) next (next-Has id k s refl))))

        waits-Succeeds :
            (d : ApprovalDecision) (res : ApproverResolution) (timeout : Option ℤ) (k : StepKind V)
            → IsStep g id k
            → StopsAs k (awaiting_approval res timeout)
            → Succeeds g (resume_after_approval g id answers d)
        unfolding resume_after_approval
        waits-Succeeds approve res timeout k s (waits {a = a}) =
            rw (s.found, ◌>>=◌)
              (rw s.has_kind (advance-Succeeds answers a (targets-Has g closed id k s).0))
        waits-Succeeds reject res timeout k s (waits {b = b}) =
            rw (s.found, ◌>>=◌)
              (rw s.has_kind (advance-Succeeds answers b (targets-Has g closed id k s).1.0))

        submits-Succeeds :
            (k : StepKind V)
            → IsStep g id k
            → StopsAs k ready_to_submit_ticket
            → Succeeds g (resume_after_ticket_dispatch g id answers)
        unfolding resume_after_ticket_dispatch
        submits-Succeeds k s (submits {next = next}) =
            rw (s.found, ◌>>=◌)
              (rw s.has_kind (advance-Succeeds answers next (next-Has id k s refl)))

        -- Where a call is due, and the caller makes it with any input that fits, it succeeds, and
        -- leaves the caller at a step of the graph with what is due there.
        pub call_due-Succeeds :
            (o : Outcome) (input : Input V o)
            → IsDue g (id, o)
            → Succeeds g (call_due g id answers o input)
        call_due-Succeeds (awaiting_answer key) v h = asks-Succeeds key v h.kind h.there h.due
        call_due-Succeeds (awaiting_approval res timeout) d h =
            waits-Succeeds d res timeout h.kind h.there h.due
        call_due-Succeeds ready_to_submit_ticket input h = submits-Succeeds h.kind h.there h.due
        call_due-Succeeds (finished o) input h = absurd input
