-- ===== src/Approvals/Resolved.antt =====
-- Whom a request for approval goes to, on every branch (crates/approvals/src/resolution.rs).
use servcat.Prelude.{
  String, ◌≡◌, refl, sym, ap, subst, Bool, true, false, Bool-cases, Option-cases, ◌⊎◌, inl, inr,
  Option, none, some, List, [], ◌∷◌, Result, ok, err, keep, if◌then◌else◌,
}
use servcat.Model.User.{Uuid, Role, User}
use servcat.Model.Workflow.{ApproverResolution, static, manager_of_requester, role_in_department}
use servcat.Exec.{Exec, expect, ◌>>=◌, map_error}
use servcat.Db.World.{World}
use servcat.Db.Users
use servcat.Db.Users.{insert_by_name, by_name, is_candidate}
use servcat.Approvals.Resolution.{
  ApprovalsError, requester_has_no_manager, requester_has_no_department,
  no_user_with_role_in_department, first_id, resolve_approver_user_id,
}

abbrev pub In : {A : Type 0} → A → List A → Type 0
In x [] = ⊥
In x (y ∷ ys) = (x ≡ y) ⊎ In x ys

module _ (before : String → String → Bool) where
  -- The collation orders any two names, and is transitive.
  pub record IsCollation : Type 0 where
    pub total : (a b : String) → before a b ≡ false → before b a ≡ true
    pub transitive : (a b c : String) → before a b ≡ true → before b c ≡ true → before a c ≡ true

  pub data Resolved {V : Type 0} (w : World V) (requester : User)
      : ApproverResolution → Result ApprovalsError Uuid → Type 0 where
    the_user : {id : Uuid} → Resolved w requester (static id) (ok id)
    manager :
        {id : Uuid}
        → requester.manager_user_id ≡ some id
        → Resolved w requester manager_of_requester (ok id)
    no_manager :
        requester.manager_user_id ≡ none
        → Resolved w requester manager_of_requester (err requester_has_no_manager)
    no_department :
        {role : Role}
        → requester.department_id ≡ none
        → Resolved w requester (role_in_department role) (err requester_has_no_department)
    nobody :
        {role : Role} {department : Uuid}
        → requester.department_id ≡ some department
        → ((u : User) → In u w.users → is_candidate role department u ≡ false)
        → Resolved w requester
            (role_in_department role)
            (err (no_user_with_role_in_department role))
    first_by_name :
        {role : Role} {department : Uuid} (u : User)
        → requester.department_id ≡ some department
        → In u w.users
        → is_candidate role department u ≡ true
        → ((v : User)
            → In v w.users
            → is_candidate role department v ≡ true
            → before u.display_name v.display_name ≡ true)
        → Resolved w requester (role_in_department role) (ok u.id)

  In-keep : (p : User → Bool) (us : List User) (u : User) → In u us → p u ≡ true → In u (keep p us)
  In-keep p [] u h k = h
  In-keep p (v ∷ us) u (inl e) k = rw (ap p (sym e), k) (inl e)
  In-keep p (v ∷ us) u (inr h) k = elim (Bool-cases (p v)) [
    | inl c ↦ rw c (inr (In-keep p us u h k))
    | inr c ↦ rw c (In-keep p us u h k)
  ]

  kept-In :
      (p : User → Bool) (us : List User) (u : User) → In u (keep p us) → In u us × (p u ≡ true)
  kept-In p [] u h = absurd h
  kept-In p (v ∷ us) u h = elim (Bool-cases (p v)) [
    | inl c ↦
        head_or_later (subst (λ b. In u (if b then v ∷ keep p us else keep p us)) c h) c
          (kept-In p us u)
    | inr c ↦
        let (there, passes) =
          kept-In p us u (subst (λ b. In u (if b then v ∷ keep p us else keep p us)) c h) in
        (inr there, passes)
  ]
    where
      head_or_later :
          In u (v ∷ keep p us)
          → p v ≡ true
          → (In u (keep p us) → In u us × (p u ≡ true))
          → In u (v ∷ us) × (p u ≡ true)
      head_or_later (inl e) c k = (inl e, subst (λ x. p x ≡ true) (sym e) c)
      head_or_later (inr there) c k = let (inside, passes) = k there in (inr inside, passes)

  -- The first user of a sorted list comes before all users of a list.
  abbrev First : List User → List User → Type 0
  First [] l = (v : User) → In v l → ⊥
  First (x ∷ rest) l = In x l × ((v : User) → In v l → before x.display_name v.display_name ≡ true)

  module _ (order : IsCollation) where
    before_self : (a : String) → before a a ≡ true
    before_self a = elim (Bool-cases (before a a)) [ inl h ↦ h | inr h ↦ order.total a a h ]

    below :
        (u v x : User) (l : List User)
        → ((y : User) → In y l → before x.display_name y.display_name ≡ true)
        → before u.display_name x.display_name ≡ true
        → In v (u ∷ l)
        → before u.display_name v.display_name ≡ true
    below u v x l low b (inl e) = rw e (before_self u.display_name)
    below u v x l low b (inr h) =
        order.transitive u.display_name x.display_name v.display_name b (low v h)

    kept_below :
        (u v x : User) (l : List User)
        → ((y : User) → In y l → before x.display_name y.display_name ≡ true)
        → before u.display_name x.display_name ≡ false
        → In v (u ∷ l)
        → before x.display_name v.display_name ≡ true
    kept_below u v x l low b (inl e) = rw e (order.total u.display_name x.display_name b)
    kept_below u v x l low b (inr h) = low v h

    alone :
        (u v : User) (l : List User)
        → ((y : User) → In y l → ⊥)
        → In v (u ∷ l)
        → before u.display_name v.display_name ≡ true
    alone u v l none_in (inl e) = rw e (before_self u.display_name)
    alone u v l none_in (inr h) = absurd (none_in v h)

    insert-First :
        (u : User) (sorted l : List User)
        → First sorted l
        → First (insert_by_name before u sorted) (u ∷ l)
    unfolding insert_by_name
    insert-First u [] l h = (inl refl, λ v k. alone u v l h k)
    insert-First u (x ∷ rest) l h = elim (Bool-cases (before u.display_name x.display_name)) [
      | inl b ↦ rw b (inl refl, λ v k. below u v x l h.1 b k)
      | inr b ↦ rw b (inr h.0, λ v k. kept_below u v x l h.1 b k)
    ]

    by_name-First : (l : List User) → First (by_name before l) l
    unfolding by_name
    by_name-First [] = λ v h. h
    by_name-First (u ∷ us) = insert-First u (by_name before us) us (by_name-First us)

    module _ {V : Type 0} (w : World V) (requester : User) where
      chosen :
          (role : Role) (department : Uuid) (sorted : List User)
          → requester.department_id ≡ some department
          → First sorted (keep (is_candidate role department) w.users)
          → Resolved w requester (role_in_department role) (elim (first_id sorted) [
            | none ↦ err (no_user_with_role_in_department role)
            | some id ↦ ok id
          ])
      unfolding first_id
      chosen role department [] e h = nobody e (λ u there.
          elim (Bool-cases (is_candidate role department u)) [
            | inl c ↦ absurd (h u (In-keep (is_candidate role department) w.users u there c))
            | inr c ↦ c
          ])
      chosen role department (x ∷ rest) e h =
          let (there, passes) = kept-In (is_candidate role department) w.users x h.0 in
          first_by_name x e there passes
            (λ v inside c. h.1 v (In-keep (is_candidate role department) w.users v inside c))

      first_chosen :
          (role : Role) (department : Uuid)
          → requester.department_id ≡ some department
          → (o : Option Uuid)
          → first_id (by_name before (keep (is_candidate role department) w.users)) ≡ o
          → Resolved w requester
              (role_in_department role)
              (elim o [ none ↦ err (no_user_with_role_in_department role) | some id ↦ ok id ])
      first_chosen role department e o k =
          subst
            (λ x.
              Resolved w requester (role_in_department role)
                (elim x [ none ↦ err (no_user_with_role_in_department role) | some id ↦ ok id ]))
            k
            (chosen role department (by_name before (keep (is_candidate role department) w.users)) e
              (by_name-First (keep (is_candidate role department) w.users)))

      manager_from :
          (o : Option Uuid)
          → requester.manager_user_id ≡ o
          → Resolved w requester manager_of_requester (expect requester_has_no_manager o w).0
            × ((expect requester_has_no_manager o w).1 ≡ w)
      manager_from none e = (no_manager e, refl)
      manager_from (some id) e = (manager e, refl)

      abbrev choose : Role → Uuid → Exec (World V) ApprovalsError Uuid
      choose role department =
          map_error ApprovalsError.db
            (Users.list_active_by_role_in_department before role department)
          >>= λ candidates. expect (no_user_with_role_in_department role) (first_id candidates)

      department_from :
          (role : Role) (o : Option Uuid)
          → requester.department_id ≡ o
          → let r = (expect requester_has_no_department o >>= choose role) w in
            Resolved w requester (role_in_department role) r.0 × (r.1 ≡ w)
      unfolding ◌>>=◌ map_error Users.list_active_by_role_in_department
      department_from role none e = (no_department e, refl)
      department_from role (some department) e =
          elim (Option-cases
            (first_id (by_name before (keep (is_candidate role department) w.users)))) [
              | inl k ↦ rw k (first_chosen role department e none k, refl)
              | inr (id, k) ↦ rw k (first_chosen role department e (some id) k, refl)
            ]

      -- A request for approval goes to the named user; to the manager of the requester, if there is
      -- one; or to a user of the role in the requester's department who is active, and comes before
      -- every other such user by name, if the requester has a department and there is one. Each
      -- missing part is reported as such, and nothing is written. The collation orders any two
      -- names.
      pub resolve_approver_user_id_lem :
          (r : ApproverResolution)
          → Resolved w requester r (resolve_approver_user_id before requester r w).0
            × ((resolve_approver_user_id before requester r w).1 ≡ w)
      unfolding resolve_approver_user_id ◌>>=◌ map_error Users.list_active_by_role_in_department
      resolve_approver_user_id_lem (static id) = (the_user, refl)
      resolve_approver_user_id_lem manager_of_requester =
          manager_from requester.manager_user_id refl
      resolve_approver_user_id_lem (role_in_department role) =
          department_from role requester.department_id refl
