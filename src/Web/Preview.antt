-- ===== src/Web/Preview.antt =====
-- The preview of a workflow's questions against the walk that it makes
-- (crates/server/src/web/pages/catalog.rs).
use mathlib.Core.List.{append_assoc, append-nil}
use servcat.Prelude.{
  ℕ, zero, suc, ◌<◌, String, ◌=ₛ◌, ◌≡◌, refl, sym, ap, ◌∙◌, subst, Bool, Option-cases, inl, inr,
  Option, none, some, List, [], ◌∷◌, ◌++◌, All, find-All, arith,
}
use servcat.Model.Workflow.{
  InputType, QuestionOption, StepKind, question, branch, wait_for_approval, submit_ticket, end,
  Step, WorkflowGraph, step,
}
use servcat.Engine.Valid.{step-id}
use servcat.Web.Questions.{QuestionPreview, look, preview_rounds, preview_questions}

abbrev pub IsQuestion : {V : Type 0} → StepKind V → Type 0
IsQuestion (question field_key input_type required options next) = Unit {0}
IsQuestion (branch condition on_true on_false) = ⊥
IsQuestion (wait_for_approval approver on_approve on_reject timeout) = ⊥
IsQuestion (submit_ticket next) = ⊥
IsQuestion (end outcome) = ⊥

-- The rank goes down from a question to the step behind it.
abbrev pub Descends : {V : Type 0} → (String → ℕ) → String → StepKind V → Type 0
Descends rank id (question field_key input_type required options next) = rank next < rank id
Descends rank id (branch condition on_true on_false) = Unit {0}
Descends rank id (wait_for_approval approver on_approve on_reject timeout) = Unit {0}
Descends rank id (submit_ticket next) = Unit {0}
Descends rank id (end outcome) = Unit {0}

-- The run of questions from a step on, up to a missing step or one of another kind.
pub data Asks {V : Type 0} (g : WorkflowGraph V) : String → List QuestionPreview → Type 0 where
  missing : {id : String} → step g id ≡ none → Asks g id []
  other : {id : String} {s : Step V} → step g id ≡ some s → ¬ IsQuestion s.kind → Asks g id []
  asks :
      {id key next : String} {s : Step V} {input : InputType} {required : Bool}
      {options : List QuestionOption} {run : List QuestionPreview}
      → step g id ≡ some s
      → s.kind ≡ question key input required options next
      → Asks g next run
      → Asks g id ((record { label = s.label; required = required }) ∷ run)

module _ {V : Type 0} (g : WorkflowGraph V) where
  -- The loop with this result and these questions behind it shows the run from a step on.
  Shows : String → List QuestionPreview → Option (List QuestionPreview) → Type 0
  Shows id questions result =
      (run : List QuestionPreview) × (result ≡ some (questions ++ run)) × Asks g id run

  Shows-none :
      (id : String) (questions : List QuestionPreview)
      → Asks g id []
      → Shows id questions (some questions)
  unfolding Shows
  Shows-none id questions a = ([], ap some (sym (append-nil questions)), a)

  module _ (rank : String → ℕ) (descends : All (λ s. Descends rank s.id s.kind) g.steps) where
    look-Shows :
        (fuel : ℕ) (id : String) (s : Step V) (k : StepKind V) (questions : List QuestionPreview)
        → step g id ≡ some s
        → s.kind ≡ k
        → Descends rank id k
        → rank id < suc fuel
        → ((next : String) (later : List QuestionPreview)
            → rank next < fuel
            → Shows next later (preview_rounds g fuel (step g next) later))
        → Shows id questions (look g k s.label questions (preview_rounds g fuel))
    unfolding Shows
    look-Shows fuel id s (question key input required options next) questions e k d lt later =
        let (run, eq, a) =
          later next (questions ++ (record { label = s.label; required = required }) ∷ [])
            (omega arith) in
        (
          (record { label = s.label; required = required }) ∷ run,
          eq
              ∙ ap some (
                  append_assoc questions ((record { label = s.label; required = required }) ∷ [])
                    run),
          asks e k a,
        )
    look-Shows fuel id s (branch c t f) questions e k d lt later =
        Shows-none id questions (other e (λ q. subst IsQuestion k q))
    look-Shows fuel id s (wait_for_approval r a b t) questions e k d lt later =
        Shows-none id questions (other e (λ q. subst IsQuestion k q))
    look-Shows fuel id s (submit_ticket next) questions e k d lt later =
        Shows-none id questions (other e (λ q. subst IsQuestion k q))
    look-Shows fuel id s (end o) questions e k d lt later =
        Shows-none id questions (other e (λ q. subst IsQuestion k q))

    step-Descends : (id : String) (s : Step V) → step g id ≡ some s → Descends rank id s.kind
    unfolding step
    step-Descends id s e =
        subst (λ x. Descends rank x s.kind) (step-id g id s e)
          (find-All (λ t. Descends rank t.id t.kind) (λ t. t.id =ₛ id) g.steps s descends e)

    rounds-Shows :
        (fuel : ℕ) (id : String) (questions : List QuestionPreview)
        → rank id < fuel
        → Shows id questions (preview_rounds g fuel (step g id) questions)
    unfolding preview_rounds
    rounds-Shows zero id questions lt = absurd (omega arith)
    rounds-Shows (suc fuel) id questions lt = elim (Option-cases (step g id)) [
      | inl e ↦ rw e (Shows-none id questions (missing e))
      | inr (s, e) ↦ rw e (
          look-Shows fuel id s s.kind questions e refl (step-Descends id s e) lt
            (rounds-Shows fuel))
    ]

    -- Where a rank goes down from every question of the graph to the step behind it, the loop of
    -- `preview_questions` ends within as many rounds as the rank of the entry step, plus one, and
    -- returns the labels of the questions that follow each other from there on, in order, with
    -- whether an answer is required, up to the first step of another kind or a missing one.
    pub preview_questions-Asks :
        (fuel : ℕ)
        → rank g.entry_step_id < fuel
        → (questions : List QuestionPreview) × (preview_questions g fuel ≡ some questions)
          × Asks g g.entry_step_id questions
    unfolding preview_questions Shows
    preview_questions-Asks fuel lt = rounds-Shows fuel g.entry_step_id [] lt
