-- ===== src/Tests/Approvals.antt =====
-- The theorems of the approvals, at an installation (crates/approvals/src).
use Prim.Native.Char.{code}
use servcat.Prelude.{ℕ, String, Bool, leb, ◌≡◌, some, arith, refl, none, List, [], ◌∷◌}
use servcat.Model.Approval.{approve, reject, is_pending}
use servcat.Db.Table.{select}
use servcat.Approvals.Service.{decide}
use servcat.Approvals.Decide.{Decided, decide_lem}
use servcat.Approvals.Race.{Caller, reading, polling, Race, undecided, run}
use servcat.Approvals.Race.Turns.{run-Race}
use servcat.Model.User.{User, Role}
use servcat.Model.Workflow.{role_in_department}
use servcat.Approvals.Resolution.{resolve_approver_user_id}
use servcat.Approvals.Resolved.{IsCollation, Resolved, resolve_approver_user_id_lem}
use servcat.Prelude.Int.{pos}
use servcat.Approvals.Service.{create_for_instance}
use servcat.Approvals.Requested.{Requested, create_for_instance_lem}
use servcat.Tests.Data.{world, requester}

decide_lem_example :
    let r = decide 20 2 approve none world in Decided world 20 2 approve none r.0 r.1
decide_lem_example = decide_lem world 20 2 approve none

abbrev callers : List Caller
callers = reading 2 approve none ∷ reading 2 reject none ∷ polling ∷ []

callers-Race : Race 20 callers world
unfolding select is_pending
callers-Race = undecided refl refl refl

-- Both decisions read the row before the poller writes it.
run-Race_example : let r = run 20 (0 ∷ 1 ∷ 2 ∷ 2 ∷ 0 ∷ 1 ∷ []) callers world in Race 20 r.0 r.1
run-Race_example = run-Race 20 (0 ∷ 1 ∷ 2 ∷ 2 ∷ 0 ∷ 1 ∷ []) callers world callers-Race

abbrev code_of_first : String → ℕ
code_of_first String.[] = 0
code_of_first (String.◌∷◌ c s) = code c

abbrev by_code : String → String → Bool
by_code a b = leb (code_of_first a) (code_of_first b)

by_code-IsCollation : IsCollation by_code
by_code-IsCollation = record {
  total = λ a b h. ground arith;
  transitive = λ a b c h k. ground arith;
}

abbrev in_department : User
in_department = record requester { department_id = some 3 }

resolve_approver_user_id_lem_example :
    Resolved by_code world in_department
      (role_in_department Role.approver)
      (resolve_approver_user_id by_code in_department (role_in_department Role.approver) world).0
    × ((resolve_approver_user_id by_code in_department (role_in_department Role.approver) world).1
        ≡ world)
resolve_approver_user_id_lem_example =
    resolve_approver_user_id_lem by_code by_code-IsCollation world in_department
      (role_in_department Role.approver)

create_for_instance_lem_example :
    let r =
      create_for_instance by_code 10 "approve" in_department
        (role_in_department Role.approver)
        (some (pos 60))
        world in
    Requested by_code world in_department 10 "approve"
      (role_in_department Role.approver)
      (some (pos 60))
      r.0
      r.1
create_for_instance_lem_example =
    create_for_instance_lem by_code world in_department 10 "approve"
      (role_in_department Role.approver) (some (pos 60))
