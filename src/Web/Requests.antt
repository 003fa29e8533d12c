-- ===== src/Web/Requests.antt =====
-- crates/server/src/web/pages/requests.rs.
use Prim.Native.Char.{code}
use Prim.Native.String.{◌++◌ as joined}
use servcat.Prelude.{
  ℕ, String, ◌=ₛ◌, ◌==◌, Bool, not, ◌||◌, Option, none, some, List, [], ◌∷◌, map, keep,
  if◌then◌else◌,
}
use servcat.Map.{Map}
use servcat.Json.{Json}
use servcat.Model.User.{Uuid, agent, admin, User, same_role}
use servcat.Model.Workflow.{
  InputType, boolean, number, multi_select, QuestionOption, StepKind, question, Step, WorkflowGraph,
  step,
}
use servcat.Model.Workflow as Workflow
use servcat.Model.Instance.{WorkflowInstance, is_in_progress}
use servcat.Model.Ticket.{Ticket}
use servcat.Exec.{Exec, pure, fail, expect, ◌>>=◌, ◌>>◌, map_error}
use servcat.Db.Catalog
use servcat.Db.Definitions
use servcat.Db.Instances
use servcat.Db.Tickets
use servcat.Connectors.FieldMapping.{push}
use servcat.Server.Error.{ApiError, internal, forbidden, not_found}
use servcat.Server.Env.{Env}
use servcat.Server.Orchestrator
use servcat.Server.Orchestrator.{Stop, api}
use servcat.App.State.{AppState, Setup, on_world, db}
use servcat.Web.Forms.{trim, is_empty}
use servcat.Web.Layout.{Response, redirect, Layout, load}

-- What the pages use of `serde_json::Value` beside `Json`.
pub record Values (V : Type 0) : Type 0 where
  pub null : V
  pub bool : Bool → V
  pub array : List V → V
  -- `parse::<f64>().ok().and_then(Number::from_f64)`
  pub number_of : String → Option V
  pub as_string : V → Option String
  -- `to_string`
  pub display : V → String

abbrev pub or_value {ℓ} : {A : Type ℓ} → A → Option A → A
or_value a none = a
or_value a (some b) = b

-- `raw.split(',')`
abbrev split_commas : String → List String
split_commas String.[] = "" ∷ []
split_commas (String.◌∷◌ c s) =
    let rest = split_commas s in if code c == b',' then "" ∷ rest else push c rest

abbrev pub filled : String → Bool
filled s = not (is_empty s)

module _ {V : Type 0} ⦃json : Json V⦄ (values : Values V) where
  unfoldable pub coerce_answer : Option InputType → String → V
  unfolding trim
  coerce_answer (some InputType.boolean) raw = values.bool (raw =ₛ "true" || raw =ₛ "on")
  coerce_answer (some InputType.number) raw = or_value values.null (values.number_of raw)
  coerce_answer (some InputType.multi_select) raw =
      values.array (map json.string (keep filled (map trim (split_commas raw))))
  coerce_answer _ raw = json.string raw

  unfoldable pub display_value : V → String
  display_value value = or_value (values.display value) (values.as_string value)

pub record CurrentQuestion : Type 0 where
  pub field_key : String
  pub label : String
  pub input_type : InputType
  pub required : Bool
  pub options : List QuestionOption

pub record RequestDetailTemplate (V : Type 0) : Type 0 where
  pub layout : Layout
  pub instance_row : WorkflowInstance V
  pub catalog_item_name : String
  pub question : Option CurrentQuestion
  pub answers : List (String × String)
  pub ticket : Option (Ticket V)
  pub ticket_error : Option String

pub record RequestsListTemplate (V : Type 0) : Type 0 where
  pub layout : Layout
  pub requests : List (WorkflowInstance V)

abbrev input_type_of : Option CurrentQuestion → Option InputType
input_type_of none = none
input_type_of (some q) = some q.input_type

abbrev pub is_staff : User → Bool
is_staff user = same_role user.role admin || same_role user.role agent

abbrev pub error_of : {V : Type 0} → Option (Ticket V) → Option String
error_of none = none
error_of (some t) = t.last_error

module _ {V : Type 0} where
  abbrev question_of : StepKind V → String → Option CurrentQuestion
  question_of (Workflow.question field_key input_type required options next) label = some (record {
    field_key = field_key;
    label = label;
    input_type = input_type;
    required = required;
    options = options;
  })
  question_of _ label = none

  abbrev question_at : Option (Step V) → Option CurrentQuestion
  question_at none = none
  question_at (some s) = question_of s.kind s.label

  module _ (setup : Setup) where
    unfoldable pub list_mine : User → Exec (AppState V) ApiError (RequestsListTemplate V)
    unfolding load Instances.list_for_requester
    list_mine user = do
      layout ← load setup user "requests"
      requests ← db setup (on_world (Instances.list_for_requester user.id))
      pure (record { layout = layout; requests = requests })

module _ {V : Type 0} ⦃json : Json V⦄ (values : Values V) (setup : Setup) where
  abbrev shown_answers : Option (Map V) → List (String × String)
  shown_answers none = []
  shown_answers (some []) = []
  shown_answers (some ((k, v) ∷ rest)) = (k, display_value values v) ∷ shown_answers (some rest)

  unfoldable pub show : User → Uuid → Exec (AppState V) ApiError (RequestDetailTemplate V)
  unfolding load display_value Tickets.get_by_instance_id
  show user id = do
    layout ← load setup user "requests"
    row ← db setup (on_world (Instances.get_by_id id))
    found ← expect (not_found "request not found") row
    (if found.requester_user_id == user.id || is_staff user then pure tt else fail forbidden)
    item_row ← db setup (on_world (Catalog.get_by_id found.catalog_item_id))
    item ← expect internal item_row
    definition_row ← db setup (on_world (Definitions.get_by_id found.workflow_definition_id))
    definition ← expect internal definition_row
    ticket ← db setup (on_world (Tickets.get_by_instance_id found.id))
    pure (record {
      layout = layout;
      instance_row = found;
      catalog_item_name = item.name;
      question =
          if is_in_progress found.status
          then question_at (step definition.graph found.current_step_id)
          else none;
      answers = shown_answers (json.as_object found.answers_json);
      ticket = ticket;
      ticket_error = if is_staff user then error_of ticket else none;
    })

  -- The limit is that of the orchestrator's loop.
  unfoldable pub submit_answer :
      Env V → ℕ → User → Uuid → String → String → Exec (AppState V) Stop (Response (Unit {0}))
  unfolding coerce_answer Orchestrator.submit_answer
  submit_answer env fuel user id field_key value = do
    row ← map_error api (db setup (on_world (Instances.get_by_id id)))
    found ← expect (api (not_found "request not found")) row
    definition_row ←
        map_error api (db setup (on_world (Definitions.get_by_id found.workflow_definition_id)))
    definition ← expect (api internal) definition_row
    on_world (
        Orchestrator.submit_answer env fuel id user field_key (
          coerce_answer values
            (input_type_of (question_at (step definition.graph found.current_step_id))) value))
    pure (redirect (joined "/requests/" (setup.tokens.uuid_text id)))
