-- ===== src/Model/Catalog.antt =====
-- crates/model/src/catalog.rs
use servcat.Prelude.{String, Bool, Option, List}
use servcat.Prelude.Int.{ℤ}
use servcat.Model.User.{Uuid, Timestamp}

pub data TargetUnit : Type 0 where
  minutes hours business_days calendar_days : TargetUnit

pub record CatalogItemDetails : Type 0 where
  pub included : List String
  pub not_included : List String
  pub needed : List String
  pub keywords : List String

pub record ServiceCatalogItem : Type 0 where
  pub id : Uuid
  pub slug : Option String
  pub name : String
  pub description : Option String
  pub summary : Option String
  pub details_json : Option CatalogItemDetails
  pub approval_label : Option String
  pub target_value : Option ℤ
  pub target_unit : Option TargetUnit
  pub category : Option String
  pub icon : Option String
  pub sort_order : ℤ
  pub workflow_definition_id : Uuid
  pub is_active : Bool
  pub created_by : Option Uuid
  pub created_at : Timestamp
  pub updated_at : Timestamp
