-- ===== src/Authorization/Types.antt =====
-- The value classes of src/authorization; their getters are the fields.
use asabru_commons.Base.{List, Bytes}

-- The constructors leave out `objectId` or give it; nothing reads it.
pub record Principal : Type 0 where
  pub name : Bytes
  pub email : Bytes
  pub display_name : Bytes
  pub description : Bytes
  pub data_source : Bytes
  pub principal_type : Bytes

pub record Group : Type 0 where
  pub group_name : Bytes
  pub members : List Bytes

pub record Operation : Type 0 where
  pub id : Bytes
  pub name : Bytes
  pub description : Bytes

pub record Resource : Type 0 where
  pub id : Bytes
  pub name : Bytes

pub record ResourceAccessPredicate : Type 0 where
  pub principal_name : Bytes
  pub operation_id : Bytes
  pub resource_id : Bytes
  pub predicate_type : Bytes

pub record Predicate : Type 0 where
  pub resource_id : Bytes
  pub operation_id : Bytes
  pub principal_name : Bytes
