-- ===== src/Policy/User.antt =====
-- apps/api/src/common/types/authenticated-user.type.ts.
use etik_bildirim_platformu.Prelude.{String, Bool, Option, List}
use etik_bildirim_platformu.Shared.Enums.{Role, ClearanceLevel}

pub record AuthenticatedUser : Type 0 where
  pub id : String
  pub email : String
  pub display_name : String
  pub roles : List Role
  pub clearance_level : ClearanceLevel
  pub company_id : Option String
  pub company_name : Option String
  pub function_id : Option String
  pub location_id : Option String
  pub is_general_secretary : Bool
