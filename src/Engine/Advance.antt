-- ===== src/Engine/Advance.antt =====
-- `auto_advance` returns exactly what the walk relation describes
-- (crates/workflow-engine/src/lib.rs).
use servcat.Prelude.{
  ℕ, zero, suc, ◌<◌, String, ◌≡◌, refl, ◌↔◌, ◌∙◌, ap, none, ok, err, ◌>>=◌, subst, arith, Decides,
  holds, fails, if◌then◌else◌,
}
use servcat.Json.{Json}
use servcat.Model.Workflow.{Condition, StepKind, WorkflowGraph, step}
use servcat.Engine.{
  Answers, unknown_step, too_many_steps, Outcome, Advance, max_auto_steps, eval_condition, visit,
  auto_advance_rounds, auto_advance,
}
use servcat.Engine.Meaning.{Holds, eval_condition-Decides}
use servcat.Engine.Walk.{
  IsStep, StopsAs, asks, waits, submits, ends, Hop, on_true, on_false, Walk, stay, hop, Reaches,
  stops, leaves, goes_on, rounds-Reaches,
}

module _ {V : Type 0} ⦃json : Json V⦄ (g : WorkflowGraph V) (answers : Answers V) where
  abbrev rounds : ℕ → String → Advance
  rounds n id = auto_advance_rounds n g id answers

  rounds-visit :
      (n : ℕ) (id : String) {kind : StepKind V}
      → IsStep g id kind
      → rounds (suc n) id ≡ visit kind id answers (rounds n)
  unfolding auto_advance_rounds
  rounds-visit n id s = rw (s.found, ◌>>=◌) (rw s.has_kind)

  rounds-stops :
      (n : ℕ) {id : String} {kind : StepKind V} {o : Outcome}
      → IsStep g id kind
      → StopsAs kind o
      → rounds (suc n) id ≡ ok (id, o)
  unfolding visit
  rounds-stops n {id} s asks = rounds-visit n id s
  rounds-stops n {id} s waits = rounds-visit n id s
  rounds-stops n {id} s submits = rounds-visit n id s
  rounds-stops n {id} s ends = rounds-visit n id s

  branch-true :
      (c : Condition V) (t f : String)
      → Decides (eval_condition c answers) (Holds c answers)
      → Holds c answers
      → (if eval_condition c answers then t else f) ≡ t
  branch-true c t f (holds e h) k = rw e
  branch-true c t f (fails e h) k = absurd (h k)

  branch-false :
      (c : Condition V) (t f : String)
      → Decides (eval_condition c answers) (Holds c answers)
      → ¬ Holds c answers
      → (if eval_condition c answers then t else f) ≡ f
  branch-false c t f (holds e h) k = absurd (k h)
  branch-false c t f (fails e h) k = rw e

  rounds-Hop :
      (n : ℕ) {id next : String} → Hop g answers id next → rounds (suc n) id ≡ rounds n next
  unfolding visit
  rounds-Hop n {id} (on_true {t = t} {f = f} {c = c} s h) =
      rounds-visit n id s ∙ ap (rounds n) (branch-true c t f (eval_condition-Decides c answers) h)
  rounds-Hop n {id} (on_false {t = t} {f = f} {c = c} s h) =
      rounds-visit n id s ∙ ap (rounds n) (branch-false c t f (eval_condition-Decides c answers) h)

  rounds-Walk :
      (n : ℕ) {k : ℕ} {id last : String} {r : Advance}
      → k < n
      → Walk g answers k id last
      → ((m : ℕ) → rounds (suc m) last ≡ r)
      → rounds n id ≡ r
  rounds-Walk zero lt w e = absurd (omega arith)
  rounds-Walk (suc n) lt stay e = e n
  rounds-Walk (suc n) lt (hop h w) e = rounds-Hop n h ∙ rounds-Walk n (omega arith) w e

  rounds-long :
      {n : ℕ} {id last : String}
      → Walk g answers n id last
      → rounds n id ≡ err (too_many_steps max_auto_steps)
  unfolding auto_advance_rounds
  rounds-long stay = refl
  rounds-long (hop {n = n} h w) = rounds-Hop n h ∙ rounds-long w

  rounds-leaves :
      (last : String) → step g last ≡ none → (m : ℕ) → rounds (suc m) last ≡ err (unknown_step last)
  unfolding auto_advance_rounds
  rounds-leaves last e m = rw (e, ◌>>=◌)

  Reaches-rounds : (n : ℕ) (id : String) (r : Advance) → Reaches g answers n id r → rounds n id ≡ r
  Reaches-rounds n id r (stops lt w s o) = rounds-Walk n lt w (λ m. rounds-stops m s o)
  Reaches-rounds n id r (leaves {last = last} lt w e) = rounds-Walk n lt w (rounds-leaves last e)
  Reaches-rounds n id r (goes_on w) = rounds-long w

  -- `auto_advance` returns a result exactly when the walk of fewer than 256 branch steps from
  -- the given step comes to it: a stop with what is due there, a step that the graph lacks, or
  -- the limit on the steps.
  pub auto_advance-iff-Reaches :
      (id : String) (r : Advance)
      → (auto_advance g id answers ≡ r) ↔ Reaches g answers max_auto_steps id r
  unfolding auto_advance
  auto_advance-iff-Reaches id r = (
    λ e. subst (Reaches g answers max_auto_steps id) e (rounds-Reaches g answers max_auto_steps id),
    Reaches-rounds max_auto_steps id r,
  )
