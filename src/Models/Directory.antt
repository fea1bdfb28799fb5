-- ===== src/Models/Directory.antt =====
-- Users, their roles and the properties (app/models/models.py), as far as the services read them,
-- and the caller's token.
use ski_tech_backend.Base.{Bool, Option, String}
use ski_tech_backend.Runtime.{Uuid}

-- `Role.name`: the roles that the code names, and any other.
pub data RoleName : Type 0 where
  super_admin tenant_admin co_admin manager staff : RoleName
  other_role : String → RoleName

pub record User : Type 0 where
  pub id : Uuid
  pub tenant_id : Uuid
  pub first_name : Option String
  pub last_name : Option String
  pub property_id : Option Uuid
  pub role_name : RoleName  -- of the role that role_id names
  pub is_active : Bool
  pub is_deleted : Bool  -- deleted_at is set

pub record Property : Type 0 where
  pub id : Uuid
  pub tenant_id : Uuid
  pub name : String
  pub is_deleted : Bool

-- A claim of a token that should hold a UUID.
pub data Claim : Type 0 where
  absent malformed : Claim
  uuid : Uuid → Claim

-- The decoded token that a handler is called with.
pub record Token : Type 0 where
  pub user_id : Claim
  pub tenant_id : Claim
  pub property_id : Claim
  pub role : Option RoleName
