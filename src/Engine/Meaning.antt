-- ===== src/Engine/Meaning.antt =====
-- The meaning of a branch condition as a statement about the answers, and `eval_condition` as its
-- decision (crates/workflow-engine/src/lib.rs).
use servcat.Prelude.{
  String, ◌≡◌, refl, Bool, true, false, not, ◌&&◌, ◌||◌, ◌⊎◌, inl, inr, Option, none, some, List,
  [], ◌∷◌, Decides, holds, fails,
}
use servcat.Map
use servcat.Map.{is_some}
use servcat.Json.{Json}
use servcat.Model.Workflow.{
  Condition, Conditions, equals, not_equals, exists, is_in, all_of, any_of, negated, nil, cons,
}
use servcat.Engine.{Answers, equals_some, contained, eval_condition, eval_all, eval_any}

module _ {V : Type 0} ⦃json : Json V⦄ where
  -- An answer was given, and it equals `v`.
  abbrev pub GivenAs : Option V → V → Type 0
  GivenAs none v = ⊥
  GivenAs (some w) v = json.same w v ≡ true

  -- An answer was given, and it equals one of the values.
  abbrev pub GivenAmong : Option V → List V → Type 0
  GivenAmong none vs = ⊥
  GivenAmong (some w) [] = ⊥
  GivenAmong (some w) (v ∷ vs) = (json.same v w ≡ true) ⊎ GivenAmong (some w) vs

  abbrev pub Given : Option V → Type 0
  Given none = ⊥
  Given (some w) = Unit {0}

  abbrev mutual
    pub Holds : Condition V → Answers V → Type 0
    Holds (equals key v) answers = GivenAs (Map.get answers key) v
    Holds (not_equals key v) answers = ¬ GivenAs (Map.get answers key) v
    Holds (exists key) answers = Given (Map.get answers key)
    Holds (is_in key vs) answers = GivenAmong (Map.get answers key) vs
    Holds (all_of cs) answers = HoldAll cs answers
    Holds (any_of cs) answers = HoldAny cs answers
    Holds (negated c) answers = ¬ Holds c answers

    pub HoldAll : Conditions V → Answers V → Type 0
    HoldAll nil answers = Unit
    HoldAll (cons c cs) answers = Holds c answers × HoldAll cs answers

    pub HoldAny : Conditions V → Answers V → Type 0
    HoldAny nil answers = ⊥
    HoldAny (cons c cs) answers = Holds c answers ⊎ HoldAny cs answers

Decides-not : {P : Type 0} {b : Bool} → Decides b P → Decides (not b) (¬ P)
Decides-not (holds e p) = fails (rw e) (λ n. n p)
Decides-not (fails e n) = holds (rw e) n

Decides-and : {P Q : Type 0} {a b : Bool} → Decides a P → Decides b Q → Decides (a && b) (P × Q)
Decides-and (holds d p) (holds e q) = holds (rw (d, e)) (p, q)
Decides-and (holds d p) (fails e n) = fails (rw (d, e)) (λ r. n r.1)
Decides-and (fails d n) e = fails (rw d) (λ r. n r.0)

Decides-or : {P Q : Type 0} {a b : Bool} → Decides a P → Decides b Q → Decides (a || b) (P ⊎ Q)
Decides-or (holds d p) e = holds (rw d) (inl p)
Decides-or (fails d m) (holds e q) = holds (rw (d, e)) (inr q)
Decides-or (fails d m) (fails e n) = fails (rw (d, e)) (λ r. elim r [ inl x ↦ m x | inr y ↦ n y ])

Decides-eq : (b : Bool) → Decides b (b ≡ true)
Decides-eq true = holds refl refl
Decides-eq false = fails refl (λ e. cc)

module _ {V : Type 0} ⦃json : Json V⦄ where
  equals_some-Decides : (o : Option V) (v : V) → Decides (equals_some o v) (GivenAs o v)
  unfolding equals_some
  equals_some-Decides none v = fails refl (λ z. z)
  equals_some-Decides (some w) v = Decides-eq (json.same w v)

  contained-Decides : (o : Option V) (vs : List V) → Decides (contained o vs) (GivenAmong o vs)
  unfolding contained
  contained-Decides none vs = fails refl (λ z. z)
  contained-Decides (some w) [] = fails refl (λ z. z)
  contained-Decides (some w) (v ∷ vs) =
      Decides-or (Decides-eq (json.same v w)) (contained-Decides (some w) vs)

  Given-Decides :
      (m : Answers V) (key : String) → Decides (Map.contains_key m key) (Given (Map.get m key))
  unfolding Map.contains_key
  Given-Decides m key = present (Map.get m key)
    where
      present : (o : Option V) → Decides (is_some o) (Given o)
      present none = fails refl (λ z. z)
      present (some w) = holds refl tt

  mutual
    unfolding eval_condition

    eval-Decides :
        (c : Condition V) (answers : Answers V)
        → Decides (eval_condition c answers) (Holds c answers)
    eval-Decides (equals key v) answers = equals_some-Decides (Map.get answers key) v
    eval-Decides (not_equals key v) answers =
        Decides-not (equals_some-Decides (Map.get answers key) v)
    eval-Decides (exists key) answers = Given-Decides answers key
    eval-Decides (is_in key vs) answers = contained-Decides (Map.get answers key) vs
    eval-Decides (all_of cs) answers = eval_all-Decides cs answers
    eval-Decides (any_of cs) answers = eval_any-Decides cs answers
    eval-Decides (negated c) answers = Decides-not (eval-Decides c answers)

    eval_all-Decides :
        (cs : Conditions V) (answers : Answers V)
        → Decides (eval_all cs answers) (HoldAll cs answers)
    eval_all-Decides nil answers = holds refl tt
    eval_all-Decides (cons c cs) answers =
        Decides-and (eval-Decides c answers) (eval_all-Decides cs answers)

    eval_any-Decides :
        (cs : Conditions V) (answers : Answers V)
        → Decides (eval_any cs answers) (HoldAny cs answers)
    eval_any-Decides nil answers = fails refl (λ z. z)
    eval_any-Decides (cons c cs) answers =
        Decides-or (eval-Decides c answers) (eval_any-Decides cs answers)

  -- Evaluating a condition decides it: the result is true where the condition holds of the
  -- answers, and false where it does not.
  pub eval_condition-Decides :
      (c : Condition V) (answers : Answers V) → Decides (eval_condition c answers) (Holds c answers)
  eval_condition-Decides c answers = eval-Decides c answers
