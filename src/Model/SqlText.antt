-- ===== src/Model/SqlText.antt =====
-- crates/model/src/sql_enum.rs: the texts of the enums in the database.
use package.text.Mathlib.TextEquality.{eq_iff}
use servcat.Prelude.{
  String, ◌=ₛ◌, ◌≡◌, refl, sym, true, false, Bool, ◌⊎◌, ap, ◌∙◌, inl, inr, Option, none, some,
  if◌then◌else◌,
}
use servcat.Model.User.{Role}
use servcat.Model.Workflow.{TargetSystem}
use servcat.Model.Instance.{InstanceStatus}
use servcat.Model.Approval.{ApprovalStatus}
use servcat.Model.Ticket.{DispatchStatus}
use servcat.Model.Catalog.{TargetUnit}

-- The two directions of one enum. A text that is no variant's is refused; its message is left out.
pub record SqlEnum (A : Type 0) : Type 0 where
  pub as_str : A → String
  pub from_str : String → Option A

unfoldable pub role_as_str : Role → String
role_as_str Role.requester = "requester"
role_as_str Role.approver = "approver"
role_as_str Role.agent = "agent"
role_as_str Role.admin = "admin"

unfoldable pub role_from_str : String → Option Role
role_from_str s =
    if s =ₛ "requester"
    then some Role.requester
    else (if s =ₛ "approver"
        then some Role.approver
        else (if s =ₛ "agent"
            then some Role.agent
            else (if s =ₛ "admin" then some Role.admin else none)))

abbrev pub role_sql : SqlEnum Role
role_sql = record { as_str = role_as_str; from_str = role_from_str }

unfoldable pub target_system_as_str : TargetSystem → String
target_system_as_str TargetSystem.jira = "jira"
target_system_as_str TargetSystem.glpi = "glpi"
target_system_as_str TargetSystem.freshservice = "freshservice"
target_system_as_str TargetSystem.webhook = "webhook"

unfoldable pub target_system_from_str : String → Option TargetSystem
target_system_from_str s =
    if s =ₛ "jira"
    then some TargetSystem.jira
    else (if s =ₛ "glpi"
        then some TargetSystem.glpi
        else (if s =ₛ "freshservice"
            then some TargetSystem.freshservice
            else (if s =ₛ "webhook" then some TargetSystem.webhook else none)))

abbrev pub target_system_sql : SqlEnum TargetSystem
target_system_sql = record { as_str = target_system_as_str; from_str = target_system_from_str }

unfoldable pub instance_status_as_str : InstanceStatus → String
instance_status_as_str InstanceStatus.in_progress = "in_progress"
instance_status_as_str InstanceStatus.awaiting_approval = "awaiting_approval"
instance_status_as_str InstanceStatus.completed = "completed"
instance_status_as_str InstanceStatus.rejected = "rejected"
instance_status_as_str InstanceStatus.cancelled = "cancelled"
instance_status_as_str InstanceStatus.failed = "failed"

unfoldable pub instance_status_from_str : String → Option InstanceStatus
instance_status_from_str s =
    if s =ₛ "in_progress"
    then some InstanceStatus.in_progress
    else (if s =ₛ "awaiting_approval"
        then some InstanceStatus.awaiting_approval
        else (if s =ₛ "completed"
            then some InstanceStatus.completed
            else (if s =ₛ "rejected"
                then some InstanceStatus.rejected
                else (if s =ₛ "cancelled"
                    then some InstanceStatus.cancelled
                    else (if s =ₛ "failed" then some InstanceStatus.failed else none)))))

abbrev pub instance_status_sql : SqlEnum InstanceStatus
instance_status_sql = record {
  as_str = instance_status_as_str;
  from_str = instance_status_from_str;
}

unfoldable pub approval_status_as_str : ApprovalStatus → String
approval_status_as_str ApprovalStatus.pending = "pending"
approval_status_as_str ApprovalStatus.approved = "approved"
approval_status_as_str ApprovalStatus.rejected = "rejected"
approval_status_as_str ApprovalStatus.expired = "expired"

unfoldable pub approval_status_from_str : String → Option ApprovalStatus
approval_status_from_str s =
    if s =ₛ "pending"
    then some ApprovalStatus.pending
    else (if s =ₛ "approved"
        then some ApprovalStatus.approved
        else (if s =ₛ "rejected"
            then some ApprovalStatus.rejected
            else (if s =ₛ "expired" then some ApprovalStatus.expired else none)))

abbrev pub approval_status_sql : SqlEnum ApprovalStatus
approval_status_sql = record {
  as_str = approval_status_as_str;
  from_str = approval_status_from_str;
}

unfoldable pub dispatch_status_as_str : DispatchStatus → String
dispatch_status_as_str DispatchStatus.pending = "pending"
dispatch_status_as_str DispatchStatus.sent = "sent"
dispatch_status_as_str DispatchStatus.failed = "failed"
dispatch_status_as_str DispatchStatus.acked = "acked"

unfoldable pub dispatch_status_from_str : String → Option DispatchStatus
dispatch_status_from_str s =
    if s =ₛ "pending"
    then some DispatchStatus.pending
    else (if s =ₛ "sent"
        then some DispatchStatus.sent
        else (if s =ₛ "failed"
            then some DispatchStatus.failed
            else (if s =ₛ "acked" then some DispatchStatus.acked else none)))

abbrev pub dispatch_status_sql : SqlEnum DispatchStatus
dispatch_status_sql = record {
  as_str = dispatch_status_as_str;
  from_str = dispatch_status_from_str;
}

unfoldable pub target_unit_as_str : TargetUnit → String
target_unit_as_str TargetUnit.minutes = "minutes"
target_unit_as_str TargetUnit.hours = "hours"
target_unit_as_str TargetUnit.business_days = "business_days"
target_unit_as_str TargetUnit.calendar_days = "calendar_days"

unfoldable pub target_unit_from_str : String → Option TargetUnit
target_unit_from_str s =
    if s =ₛ "minutes"
    then some TargetUnit.minutes
    else (if s =ₛ "hours"
        then some TargetUnit.hours
        else (if s =ₛ "business_days"
            then some TargetUnit.business_days
            else (if s =ₛ "calendar_days" then some TargetUnit.calendar_days else none)))

abbrev pub target_unit_sql : SqlEnum TargetUnit
target_unit_sql = record { as_str = target_unit_as_str; from_str = target_unit_from_str }

-- Reading what was written gives the variant, and what is read as a variant is its text.
abbrev pub RoundTrips : {A : Type 0} → SqlEnum A → Type 0
RoundTrips {A} e =
    ((a : A) → e.from_str (e.as_str a) ≡ some a)
    × ((s : String) (a : A) → e.from_str s ≡ some a → e.as_str a ≡ s)

hit :
    {A : Type 0} (b : Bool) (x : A) (rest : Option A) (a : A)
    → (if b then some x else rest) ≡ some a
    → ((b ≡ true) × (x ≡ a)) ⊎ (rest ≡ some a)
hit true x rest a h = inl (refl, cc)
hit false x rest a h = inr h

read_text :
    {A : Type 0} (f : A → String) (s t : String) (x a : A) (rest : Option A)
    → f x ≡ t
    → (rest ≡ some a → f a ≡ s)
    → (if s =ₛ t then some x else rest) ≡ some a
    → f a ≡ s
read_text f s t x a rest named later h = elim (hit (s =ₛ t) x rest a h) [
  | inl (same, e) ↦ ap f (sym e) ∙ named ∙ sym ((eq_iff s t).0 same)
  | inr k ↦ later k
]

role_forth : (a : Role) → role_from_str (role_as_str a) ≡ some a
unfolding role_as_str role_from_str
role_forth Role.requester = refl
role_forth Role.approver = refl
role_forth Role.agent = refl
role_forth Role.admin = refl

role_back : (s : String) (a : Role) → role_from_str s ≡ some a → role_as_str a ≡ s
unfolding role_as_str role_from_str
role_back s a = read_text role_as_str s "requester" Role.requester a _ refl (
    read_text role_as_str s "approver" Role.approver a _ refl (
      read_text role_as_str s "agent" Role.agent a _ refl
        (read_text role_as_str s "admin" Role.admin a _ refl (λ k. absurd (cc)))))

target_system_forth : (a : TargetSystem) → target_system_from_str (target_system_as_str a) ≡ some a
unfolding target_system_as_str target_system_from_str
target_system_forth TargetSystem.jira = refl
target_system_forth TargetSystem.glpi = refl
target_system_forth TargetSystem.freshservice = refl
target_system_forth TargetSystem.webhook = refl

target_system_back :
    (s : String) (a : TargetSystem) → target_system_from_str s ≡ some a → target_system_as_str a ≡ s
unfolding target_system_as_str target_system_from_str
target_system_back s a = read_text target_system_as_str s "jira" TargetSystem.jira a _ refl (
    read_text target_system_as_str s "glpi" TargetSystem.glpi a _ refl (
      read_text target_system_as_str s "freshservice" TargetSystem.freshservice a _ refl (
        read_text target_system_as_str s "webhook" TargetSystem.webhook a _ refl
          (λ k. absurd (cc)))))

instance_status_forth :
    (a : InstanceStatus) → instance_status_from_str (instance_status_as_str a) ≡ some a
unfolding instance_status_as_str instance_status_from_str
instance_status_forth InstanceStatus.in_progress = refl
instance_status_forth InstanceStatus.awaiting_approval = refl
instance_status_forth InstanceStatus.completed = refl
instance_status_forth InstanceStatus.rejected = refl
instance_status_forth InstanceStatus.cancelled = refl
instance_status_forth InstanceStatus.failed = refl

instance_status_back :
    (s : String) (a : InstanceStatus)
    → instance_status_from_str s ≡ some a
    → instance_status_as_str a ≡ s
unfolding instance_status_as_str instance_status_from_str
instance_status_back s a =
    read_text instance_status_as_str s "in_progress" InstanceStatus.in_progress a _ refl (
      read_text instance_status_as_str s "awaiting_approval" InstanceStatus.awaiting_approval a _
        refl
        (read_text instance_status_as_str s "completed" InstanceStatus.completed a _ refl (
          read_text instance_status_as_str s "rejected" InstanceStatus.rejected a _ refl (
            read_text instance_status_as_str s "cancelled" InstanceStatus.cancelled a _ refl (
              read_text instance_status_as_str s "failed" InstanceStatus.failed a _ refl
                (λ k. absurd (cc)))))))

approval_status_forth :
    (a : ApprovalStatus) → approval_status_from_str (approval_status_as_str a) ≡ some a
unfolding approval_status_as_str approval_status_from_str
approval_status_forth ApprovalStatus.pending = refl
approval_status_forth ApprovalStatus.approved = refl
approval_status_forth ApprovalStatus.rejected = refl
approval_status_forth ApprovalStatus.expired = refl

approval_status_back :
    (s : String) (a : ApprovalStatus)
    → approval_status_from_str s ≡ some a
    → approval_status_as_str a ≡ s
unfolding approval_status_as_str approval_status_from_str
approval_status_back s a =
    read_text approval_status_as_str s "pending" ApprovalStatus.pending a _ refl (
      read_text approval_status_as_str s "approved" ApprovalStatus.approved a _ refl (
        read_text approval_status_as_str s "rejected" ApprovalStatus.rejected a _ refl (
          read_text approval_status_as_str s "expired" ApprovalStatus.expired a _ refl
            (λ k. absurd (cc)))))

dispatch_status_forth :
    (a : DispatchStatus) → dispatch_status_from_str (dispatch_status_as_str a) ≡ some a
unfolding dispatch_status_as_str dispatch_status_from_str
dispatch_status_forth DispatchStatus.pending = refl
dispatch_status_forth DispatchStatus.sent = refl
dispatch_status_forth DispatchStatus.failed = refl
dispatch_status_forth DispatchStatus.acked = refl

dispatch_status_back :
    (s : String) (a : DispatchStatus)
    → dispatch_status_from_str s ≡ some a
    → dispatch_status_as_str a ≡ s
unfolding dispatch_status_as_str dispatch_status_from_str
dispatch_status_back s a =
    read_text dispatch_status_as_str s "pending" DispatchStatus.pending a _ refl (
      read_text dispatch_status_as_str s "sent" DispatchStatus.sent a _ refl (
        read_text dispatch_status_as_str s "failed" DispatchStatus.failed a _ refl (
          read_text dispatch_status_as_str s "acked" DispatchStatus.acked a _ refl
            (λ k. absurd (cc)))))

pub target_unit_forth : (a : TargetUnit) → target_unit_from_str (target_unit_as_str a) ≡ some a
unfolding target_unit_as_str target_unit_from_str
target_unit_forth TargetUnit.minutes = refl
target_unit_forth TargetUnit.hours = refl
target_unit_forth TargetUnit.business_days = refl
target_unit_forth TargetUnit.calendar_days = refl

pub target_unit_back :
    (s : String) (a : TargetUnit) → target_unit_from_str s ≡ some a → target_unit_as_str a ≡ s
unfolding target_unit_as_str target_unit_from_str
target_unit_back s a = read_text target_unit_as_str s "minutes" TargetUnit.minutes a _ refl (
    read_text target_unit_as_str s "hours" TargetUnit.hours a _ refl (
      read_text target_unit_as_str s "business_days" TargetUnit.business_days a _ refl (
        read_text target_unit_as_str s "calendar_days" TargetUnit.calendar_days a _ refl
          (λ k. absurd (cc)))))

-- Each enum that the database stores as a text is read back as it was written, and a text that is
-- read as a variant is the text of that variant alone.
pub sql_enum-RoundTrips :
    RoundTrips role_sql
    × RoundTrips target_system_sql
    × RoundTrips instance_status_sql
    × RoundTrips approval_status_sql
    × RoundTrips dispatch_status_sql
    × RoundTrips target_unit_sql
sql_enum-RoundTrips = (
  (role_forth, role_back),
  (target_system_forth, target_system_back),
  (instance_status_forth, instance_status_back),
  (approval_status_forth, approval_status_back),
  (dispatch_status_forth, dispatch_status_back),
  (target_unit_forth, target_unit_back),
)
