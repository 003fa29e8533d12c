-- ===== src/Server/Env.antt =====
-- What the server calls and this repository does not implement: the collation of the database, the
-- text of a UUID, the template engine, and the ticketing systems behind the configured connectors
-- (crates/server/src/connector_registry.rs).
use servcat.Prelude.{ℕ, String, Bool, Option, Result}
use servcat.Model.User.{Uuid}
use servcat.Model.Workflow.{TargetSystem}
use servcat.Connectors.FieldMapping.{TemplateContext}
use servcat.Connectors.Dispatch.{ConnectorError, DispatchResult}

pub record Env (V : Type 0) : Type 0 where
  -- `display_name` orders before
  pub name_before : String → String → Bool
  pub uuid_text : Uuid → String
  -- `Tera::one_off`
  pub one_off : String → TemplateContext V → Option String
  -- which target systems have a connector
  pub configured : TargetSystem → Bool
  -- the reply of a target system to its n-th ticket
  pub reply : TargetSystem → ℕ → V → Result ConnectorError DispatchResult
  -- the message of a connector's error
  pub error_text : ConnectorError → String
