-- ===== src/Model/User.antt =====
-- crates/model/src/user.rs, and the `Uuid` and `Timestamp` of lib.rs.
use servcat.Prelude.{ℕ, String, Bool, true, false, Option}
use servcat.Prelude.Int.{ℤ}

-- A UUID, by its 128-bit value.
abbrev pub Uuid : Type 0
Uuid = ℕ

-- An instant of UTC, in seconds since 1970.
abbrev pub Timestamp : Type 0
Timestamp = ℤ

pub data Role : Type 0 where
  requester approver agent admin : Role

-- `==` on roles
unfoldable pub same_role : Role → Role → Bool
same_role requester requester = true
same_role approver approver = true
same_role agent agent = true
same_role admin admin = true
same_role _ _ = false

pub record User : Type 0 where
  pub id : Uuid
  pub email : String
  pub display_name : String
  pub password_hash : Option String
  pub external_idp_subject : Option String
  pub department_id : Option Uuid
  pub manager_user_id : Option Uuid
  pub role : Role
  pub is_active : Bool
  pub created_at : Timestamp
  pub updated_at : Timestamp
