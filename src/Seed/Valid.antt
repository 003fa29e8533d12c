-- ===== src/Seed/Valid.antt =====
-- The graphs of the starter catalog are well formed (crates/server/src/catalog_seed.rs).
use package.text.Mathlib.TextPositions.{eq_refl}
use servcat.Prelude.{
  ℕ, ◌+◌, String, ◌=ₛ◌, ◌≡◌, refl, Bool, true, ◌||◌, some, List, [], ◌∷◌, ◌++◌, any, find, All,
  arith, if◌then◌else◌, Bool-cases, inl, inr,
}
use servcat.Model.Workflow.{
  StepKind, Step, WorkflowGraph, step, question, branch, wait_for_approval, submit_ticket, end,
}
use servcat.Engine.Valid.{Has, IsClosed, IsRanked, Lowers, targets}
use servcat.Server.AtRest.{IsForward, Descends}
use servcat.Seed.Graphs.{SeedQuestion, question_id, question_steps, from_first}

-- Only a ticket step has a rank.
abbrev pub seed_rank : String → ℕ
seed_rank id = if id =ₛ "submit" then 1 else 0

All-imp :
    {A : Type 0} (P Q : A → Type 0) → ((a : A) → P a → Q a) → (xs : List A) → All P xs → All Q xs
All-imp P Q f [] h = tt
All-imp P Q f (x ∷ xs) h = (f x h.0, All-imp P Q f xs h.1)

module _ (V : Type 0) (decimal : ℕ → String) where
  next_named :
      (i : ℕ) (q r : SeedQuestion) (later : List SeedQuestion) (next_after : String)
      → any
          (λ s. s.id =ₛ question_id decimal (i + 2))
          (question_steps {V = V} decimal i (q ∷ r ∷ later) next_after)
        ≡ true
  unfolding question_steps
  next_named i q r later next_after =
      let same : i + 2 ≡ i + 1 + 1 = omega arith in
      rw same (ground (arith, eq_refl (question_id decimal (i + 1 + 1))))

  questions-Descends :
      (rank : String → ℕ) (next_after : String) (i : ℕ) (qs : List SeedQuestion)
      → All (λ s. Descends rank s.id s.kind) (question_steps {V = V} decimal i qs next_after)
  unfolding question_steps
  questions-Descends rank next_after i [] = tt
  questions-Descends rank next_after i (q ∷ later) =
      (tt, questions-Descends rank next_after (i + 1) later)

module _ {V : Type 0} where
  abbrev pub named : String → List (Step V) → Bool
  named id steps = any (λ s. s.id =ₛ id) steps

  -- All references of a step, and of all steps, are named in a list of steps.
  abbrev pub Refers : List (Step V) → Step V → Type 0
  Refers full s = All (λ t. named t full ≡ true) (targets s.kind)

  found :
      (id : String) (steps : List (Step V))
      → named id steps ≡ true
      → (s : Step V) × (find (λ s. s.id =ₛ id) steps ≡ some s)
  found id [] h = absurd (cc)
  found id (s ∷ steps) h = elim (Bool-cases (s.id =ₛ id)) [
    | inl e ↦ (s, rw e refl)
    | inr e ↦ let (r, k) = found id steps (ground arith) in (r, rw e k)
  ]

  named_append :
      (id : String) (xs ys : List (Step V)) → named id (xs ++ ys) ≡ (named id xs || named id ys)
  named_append id [] ys = ground arith
  named_append id (x ∷ xs) ys = ground (arith, named_append id xs ys)

  on_the_right :
      (id : String) (xs ys : List (Step V)) → named id ys ≡ true → named id (xs ++ ys) ≡ true
  on_the_right id xs ys h = ground (arith, named_append id xs ys)

  on_the_left :
      (id : String) (xs ys : List (Step V)) → named id xs ≡ true → named id (xs ++ ys) ≡ true
  on_the_left id xs ys h = ground (arith, named_append id xs ys)

  All-append :
      (P : Step V → Type 0) (xs ys : List (Step V)) → All P xs → All P ys → All P (xs ++ ys)
  All-append P [] ys hx hy = hy
  All-append P (x ∷ xs) ys hx hy = (hx.0, All-append P xs ys hx.1 hy)

  module _ (decimal : ℕ → String) where
    questions-Refers :
        (full : List (Step V)) (next_after : String) (i : ℕ) (qs : List SeedQuestion)
        → ((id : String)
            → named id (question_steps decimal i qs next_after) ≡ true
            → named id full ≡ true)
        → named next_after full ≡ true
        → All (Refers full) (question_steps decimal i qs next_after)
    unfolding question_steps
    questions-Refers full next_after i [] inside h = tt
    questions-Refers full next_after i (q ∷ []) inside h = ((h, tt), tt)
    questions-Refers full next_after i (q ∷ r ∷ later) inside h = (
      (inside (question_id decimal (i + 2)) (next_named V decimal i q r later next_after), tt),
      questions-Refers full next_after (i + 1) (r ∷ later) (λ id k. inside id (ground arith)) h,
    )

  Descends-Lowers :
      (rank : String → ℕ) (s : Step V) → Descends rank s.id s.kind → Lowers rank s.id s.kind
  Descends-Lowers rank s h = at_kind s.kind h
    where
      at_kind : (k : StepKind V) → Descends rank s.id k → Lowers rank s.id k
      at_kind (question a b c d e) h = tt
      at_kind (branch c t f) h = h
      at_kind (wait_for_approval a b c d) h = tt
      at_kind (submit_ticket n) h = tt
      at_kind (end o) h = tt

  -- A graph with every reference in place, in which the engine does not fail and the orchestrator's
  -- loop ends.
  pub record IsSound (g : WorkflowGraph V) : Type 0 where
    pub closed : IsClosed g
    pub ranked : IsRanked seed_rank g
    pub forward : IsForward seed_rank g

  abbrev pub Sound : List (Step V) → Type 0
  Sound full = (g : WorkflowGraph V) × (from_first full ≡ some g) × IsSound g

  references : (g : WorkflowGraph V) (s : Step V) → Refers g.steps s → All (Has g) (targets s.kind)
  unfolding step
  references g s h =
      All-imp (λ t. named t g.steps ≡ true) (Has g) (λ t k. found t g.steps k) (targets s.kind) h

  from_first-Sound :
      (full : List (Step V))
      → named "end_completed" full ≡ true
      → All (Refers full) full
      → All (λ s. Descends seed_rank s.id s.kind) full
      → Sound full
  unfolding step
  from_first-Sound [] some_step refers descends = absurd (cc)
  from_first-Sound (s ∷ steps) some_step refers descends =
      let g : WorkflowGraph V = record { entry_step_id = s.id; steps = s ∷ steps } in
      (
        g,
        refl,
        record {
          closed = record {
            entry = found s.id (s ∷ steps) (ground (arith, eq_refl s.id));
            steps =
                All-imp (Refers (s ∷ steps)) (λ r. All (Has g) (targets r.kind)) (references g)
                  (s ∷ steps) refers;
          };
          ranked = record {
            low = λ id. ground arith;
            steps =
                All-imp (λ r. Descends seed_rank r.id r.kind) (λ r. Lowers seed_rank r.id r.kind)
                  (Descends-Lowers seed_rank) (s ∷ steps) descends;
          };
          forward = descends;
        },
      )

  module _ (decimal : ℕ → String) (questions : List SeedQuestion) (next_after : String)
      (tail : List (Step V)) where
    abbrev pub whole : List (Step V)
    whole = question_steps decimal 0 questions next_after ++ tail

    -- The questions before a tail that has the next step, and whose own references are in it.
    pub questions-Sound :
        named "end_completed" tail ≡ true
        → named next_after tail ≡ true
        → All (Refers tail) tail
        → All (λ s. Descends seed_rank s.id s.kind) tail
        → Sound whole
    questions-Sound last next refers descends =
        from_first-Sound whole (in_tail "end_completed" last)
          (All-append (Refers whole) asked tail
            (questions-Refers decimal whole next_after 0 questions
              (λ id h. on_the_left id asked tail h) (in_tail next_after next))
            (All-imp (Refers tail) (Refers whole)
              (λ s h.
                All-imp (λ t. named t tail ≡ true) (λ t. named t whole ≡ true) in_tail
                  (targets s.kind) h)
              tail refers))
          (All-append (λ s. Descends seed_rank s.id s.kind) asked tail
            (questions-Descends V decimal seed_rank next_after 0 questions) descends)
      where
        asked : List (Step V)
        asked = question_steps decimal 0 questions next_after

        in_tail : (id : String) → named id tail ≡ true → named id whole ≡ true
        in_tail id h = on_the_right id asked tail h
