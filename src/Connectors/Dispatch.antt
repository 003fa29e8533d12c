-- ===== src/Connectors/Dispatch.antt =====
-- crates/connectors/src/lib.rs: what a connector returns.
use servcat.Prelude.{ℕ, String, Option}

pub data ConnectorError : Type 0 where
  transport : String → ConnectorError
  -- the HTTP status and the body
  rejected_by_target : ℕ → String → ConnectorError
  unexpected_response : String → ConnectorError
  config : String → ConnectorError

pub record DispatchResult : Type 0 where
  pub external_ticket_id : String
  pub external_ticket_url : Option String
