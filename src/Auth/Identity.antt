-- ===== src/Auth/Identity.antt =====
-- The identities and roles of operators, app/auth/oidc.py.
use mpesa_mcp_server.Common.{ℕ, String, Option, List, [], ◌∷◌, ltb, if◌then◌else◌}

pub data OperatorRole : Type 0 where
  viewer : OperatorRole
  approver : OperatorRole
  admin : OperatorRole

-- `ROLE_LEVELS`
abbrev pub role_level : OperatorRole → ℕ
role_level viewer = 1
role_level approver = 2
role_level admin = 3

-- The text of the literal.
abbrev pub role_name : OperatorRole → String
role_name viewer = "viewer"
role_name approver = "approver"
role_name admin = "admin"

-- The roles are at least one (`min_length=1`): `first_role`, then `more_roles`.
pub record OperatorIdentity : Type 0 where
  pub subject : String
  pub email : Option String
  pub display_name : String
  pub first_role : OperatorRole
  pub more_roles : List OperatorRole
  pub groups : List String

abbrev pub roles : OperatorIdentity → List OperatorRole
roles identity = identity.first_role ∷ identity.more_roles

-- `max(..., key=ROLE_LEVELS.__getitem__)`: the first of the highest.
abbrev pub highest : OperatorRole → List OperatorRole → OperatorRole
highest best [] = best
highest best (r ∷ rs) = highest (if ltb (role_level best) (role_level r) then r else best) rs

-- the property `role`
unfoldable pub role : OperatorIdentity → OperatorRole
role identity = highest identity.first_role identity.more_roles
