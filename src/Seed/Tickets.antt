-- ===== src/Seed/Tickets.antt =====
-- Each pattern of the starter catalog gives a sound graph (crates/server/src/catalog_seed.rs).
use mathlib.Core.List.{append_assoc}
use servcat.Prelude.{ℕ, String, ◌≡◌, refl, sym, subst, some, List, ◌++◌, arith}
use servcat.Model.Workflow.{Step, WorkflowGraph}
use servcat.Seed.Graphs.{
  WorkflowPattern, simple_ticket, manager_approval_ticket, security_approval_ticket,
  finance_approval_ticket, info_only, SeedQuestion, question_steps, append_questions, end_step,
  push_submit_and_ends, two_approvals, pattern_steps, build_graph,
}
use servcat.Seed.Valid.{IsSound, Sound, questions-Sound}

module _ {V : Type 0} (decimal : ℕ → String) (questions : List SeedQuestion) where
  -- A tail that was put on in two parts.
  in_two :
      (asked middle tail : List (Step V))
      → Sound (asked ++ (middle ++ tail))
      → Sound ((asked ++ middle) ++ tail)
  in_two asked middle tail h = subst Sound (sym (append_assoc asked middle tail)) h

  -- Every pattern of the starter catalog, with whatever questions, gives a graph whose references
  -- are all in place, in which branch and ticket steps form no cycle.
  pub build_graph-IsSound :
      (pattern : WorkflowPattern)
      → (g : WorkflowGraph V) × (build_graph decimal pattern questions ≡ some g) × IsSound g
  unfolding build_graph pattern_steps append_questions push_submit_and_ends end_step two_approvals
  build_graph-IsSound simple_ticket =
      questions-Sound decimal questions "submit" _ refl refl ((refl, tt), (tt, tt))
        (omega arith, (tt, tt))
  build_graph-IsSound info_only =
      questions-Sound decimal questions "end_completed" _ refl refl (tt, tt) (tt, tt)
  build_graph-IsSound manager_approval_ticket =
      in_two (question_steps decimal 0 questions "manager_approval") _ _ (
        questions-Sound decimal questions "manager_approval" _ refl refl
          ((refl, (refl, tt)), ((refl, tt), (tt, (tt, tt)))) (tt, (omega arith, (tt, (tt, tt)))))
  build_graph-IsSound security_approval_ticket =
      in_two (question_steps decimal 0 questions "manager_approval") _ _ (
        questions-Sound decimal questions "manager_approval" _ refl refl
          ((refl, (refl, tt)), ((refl, (refl, tt)), ((refl, tt), (tt, (tt, tt)))))
          (tt, (tt, (omega arith, (tt, (tt, tt))))))
  build_graph-IsSound finance_approval_ticket =
      in_two (question_steps decimal 0 questions "manager_approval") _ _ (
        questions-Sound decimal questions "manager_approval" _ refl refl
          ((refl, (refl, tt)), ((refl, (refl, tt)), ((refl, tt), (tt, (tt, tt)))))
          (tt, (tt, (omega arith, (tt, (tt, tt))))))
