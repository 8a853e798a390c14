-- ===== src/Auth/Mapping.antt =====
-- The mapping of groups to roles, app/auth/role_mapping.py. A set is the list of its elements.
pub mod Laws
use mpesa_mcp_server.Common.{
  String, Bool, true, false, ◌||◌, Option, none, some, List, [], ◌∷◌, ◌++◌, contains, eqb,
  if◌then◌else◌,
}
use mpesa_mcp_server.Common.Dict.{Dict, lookup, insert}
use mpesa_mcp_server.Policy.ToolPolicy.{split_commas, strip_all}
use mpesa_mcp_server.Config.Settings.{Settings}
use mpesa_mcp_server.Auth.Identity.{OperatorRole, viewer, approver, admin, role_level}
use Prim.Native.Char.{Char}

abbrev pub role_order : List OperatorRole
role_order = viewer ∷ approver ∷ admin ∷ []

abbrev pub role_inheritance : OperatorRole → List OperatorRole
role_inheritance viewer = viewer ∷ []
role_inheritance approver = viewer ∷ approver ∷ []
role_inheritance admin = viewer ∷ approver ∷ admin ∷ []

pub record RoleMappingResult : Type 0 where
  pub roles : List OperatorRole
  pub matched_groups : List String
  pub unknown_groups : List String

-- `role in roles`: the levels of the roles differ.
abbrev pub has_role : List OperatorRole → OperatorRole → Bool
has_role [] r = false
has_role (q ∷ qs) r = eqb (role_level q) (role_level r) || has_role qs r

-- `_add_group_mappings`
unfoldable pub add_group_mappings :
    List String → OperatorRole → Dict OperatorRole → Dict OperatorRole
add_group_mappings [] role group_role_map = group_role_map
add_group_mappings (group ∷ groups) role group_role_map =
    add_group_mappings groups role (insert group role group_role_map)

-- `__init__`
unfoldable pub role_mapper : List String → List String → List String → Dict OperatorRole
role_mapper viewer_groups approver_groups admin_groups =
    add_group_mappings admin_groups admin
      (add_group_mappings approver_groups approver (add_group_mappings viewer_groups viewer []))

-- The roles of `ROLE_ORDER` that are among the mapped ones.
abbrev pub in_order : List OperatorRole → List OperatorRole → List OperatorRole
in_order [] mapped_roles = []
in_order (role ∷ order) mapped_roles =
    let rest = in_order order mapped_roles in
    if has_role mapped_roles role then role ∷ rest else rest

-- `list(dict.fromkeys(texts))`, from the texts that stand already.
abbrev pub from_keys : List String → List String → List String
from_keys keys [] = keys
from_keys keys (text ∷ texts) =
    from_keys (if contains keys text then keys else keys ++ text ∷ []) texts

-- The local variables of the loop in `map_groups`.
pub record Mapped : Type 0 where
  pub matched_groups : List String
  pub unknown_groups : List String
  pub mapped_roles : List OperatorRole

abbrev pub map_group : String → Option OperatorRole → Mapped → Mapped
map_group group none m = record m { unknown_groups = m.unknown_groups ++ group ∷ [] }
map_group group (some role) m = record m {
  matched_groups = m.matched_groups ++ group ∷ [];
  mapped_roles = m.mapped_roles ++ role_inheritance role;
}

unfoldable pub map_each : Dict OperatorRole → List String → Mapped → Mapped
map_each group_role_map [] m = m
map_each group_role_map (group ∷ groups) m =
    map_each group_role_map groups (map_group group (lookup group group_role_map) m)

abbrev pub nothing_mapped : Mapped
nothing_mapped = record { matched_groups = []; unknown_groups = []; mapped_roles = [] }

module _ (is_space : Char → Bool) where
  -- `_normalize_groups`, and `_parse_csv` of app/auth/oidc.py on the parts of a text
  abbrev pub normalize_groups : List String → List String
  normalize_groups groups = strip_all is_space groups

  -- `_parse_csv`
  abbrev pub parse_csv : String → List String
  parse_csv value = normalize_groups (split_commas value)

  -- `from_settings`
  abbrev pub from_settings : Settings → Dict OperatorRole
  from_settings s =
      role_mapper (parse_csv s.oidc_viewer_groups) (parse_csv s.oidc_approver_groups)
        (parse_csv s.oidc_admin_groups)

  -- `map_groups`
  unfoldable pub map_groups : Dict OperatorRole → List String → RoleMappingResult
  map_groups group_role_map groups =
      let m = map_each group_role_map (normalize_groups groups) nothing_mapped in
      record {
        roles = in_order role_order m.mapped_roles;
        matched_groups = from_keys [] m.matched_groups;
        unknown_groups = from_keys [] m.unknown_groups;
      }
