-- ===== src/Auth/Security/Laws.antt =====
-- What the role checks of app/auth/security.py let through.
use mpesa_mcp_server.Common.{
  String, ◌≡◌, refl, sym, ap, subst, Bool, true, false, ◌↔◌, inl, inr, Option, none, some, List, [],
  ◌∷◌, ◌≤◌, leb, ltb, arith, Bool-cases,
}
use mpesa_mcp_server.Common.Dict.{Dict}
use mpesa_mcp_server.Config.Settings.{Settings}
use mpesa_mcp_server.Auth.Identity.{
  OperatorRole, OperatorIdentity, role_level, highest, role, roles,
}
use mpesa_mcp_server.Auth.Mapping.{has_role, map_groups, normalize_groups, from_settings, parse_csv}
use mpesa_mcp_server.Auth.Mapping.Laws.{Covers, map_groups_lem}
use mpesa_mcp_server.Auth.Security.{
  Access, granted, http_exception, failure, require_role, development_identity, identity_with_roles,
}
use Prim.Native.Char.{Char}

highest-has_role :
    (best : OperatorRole) (rs : List OperatorRole) → has_role (best ∷ rs) (highest best rs) ≡ true
highest-has_role best [] = ground arith
highest-has_role best (r ∷ rs) = elim (Bool-cases (ltb (role_level best) (role_level r))) [
  | inl lower ↦ rw lower (ground (arith, highest-has_role r rs))
  | inr no_lower ↦ rw no_lower (ground (arith, highest-has_role best rs))
]

has_role-first : (r : OperatorRole) (rs : List OperatorRole) → has_role (r ∷ rs) r ≡ true
has_role-first r rs = ground arith

highest-bound :
    (best : OperatorRole) (rs : List OperatorRole) (r : OperatorRole)
    → has_role (best ∷ rs) r ≡ true
    → role_level r ≤ role_level (highest best rs)
highest-bound best [] r there = ground (arith, there)
highest-bound best (q ∷ rs) r there = elim (Bool-cases (ltb (role_level best) (role_level q))) [
  | inl lower ↦ rw lower (elim (Bool-cases (has_role (q ∷ rs) r)) [
    | inl here ↦ highest-bound q rs r here
    | inr gone ↦ ground (arith, there, gone, lower, highest-bound q rs q (has_role-first q rs))
  ])
  | inr no_lower ↦ rw no_lower (elim (Bool-cases (has_role (best ∷ rs) r)) [
    | inl here ↦ highest-bound best rs r here
    | inr gone ↦
        ground (arith, there, gone, no_lower, highest-bound best rs best (has_role-first best rs))
  ])
]

abbrev is_granted : Access → Bool
is_granted (granted principal) = true
is_granted (http_exception code detail) = false
is_granted (failure e) = false

pub require_role_iff :
    (minimum : OperatorRole) (principal : OperatorIdentity)
    → (require_role minimum principal ≡ granted principal)
      ↔ (role_level minimum ≤ role_level (role principal))
unfolding require_role
require_role_iff minimum principal =
    elim (Bool-cases (leb (role_level minimum) (role_level (role principal)))) [
      | inl high ↦ (λ e. ground (arith, high), λ level. rw high refl)
      | inr low ↦ (
        λ e. absurd (ground (arith, ap is_granted e, low)),
        λ level. absurd (ground (arith, low, level)),
      )
    ]

-- An identity whose roles come from groups passes the check for a role exactly if one of its groups
-- is mapped to that role or a higher one.
require_role-mapped :
    (is_space : Char → Bool) (m : Dict OperatorRole) (groups : List String) (minimum : OperatorRole)
    (principal : OperatorIdentity)
    → roles principal ≡ (map_groups is_space m groups).roles
    → (require_role minimum principal ≡ granted principal)
      ↔ Covers m (normalize_groups is_space groups) minimum
unfolding role
require_role-mapped is_space m groups minimum principal same =
    let check = require_role_iff minimum principal in
    let top = highest principal.first_role principal.more_roles in
    (
      λ e.
          let (g, q, there, found, level) = (map_groups_lem is_space m groups top).0 (
            subst (λ rs. has_role rs top ≡ true) same
              (highest-has_role principal.first_role principal.more_roles)) in
          (g, q, there, found, ground (arith, level, check.0 e)),
      λ covers. check.1 (
          highest-bound principal.first_role principal.more_roles minimum (
            subst (λ rs. has_role rs minimum ≡ true) (sym same)
              ((map_groups_lem is_space m groups minimum).1 covers))),
    )

abbrev roles_or_none : Option OperatorIdentity → List OperatorRole
roles_or_none none = []
roles_or_none (some identity) = roles identity

identity_with_roles-roles :
    (is_space : Char → Bool) (s : Settings) (groups : List String) (rs : List OperatorRole)
    (principal : OperatorIdentity)
    → identity_with_roles is_space s groups rs ≡ some principal
    → roles principal ≡ rs
identity_with_roles-roles is_space s groups [] principal e = sym (ap roles_or_none e)
identity_with_roles-roles is_space s groups (r ∷ rs) principal e = sym (ap roles_or_none e)

-- The identity of the development provider passes the check for a role exactly if one of its groups
-- is mapped, by the settings, to that role or a higher one.
pub development_identity_iff :
    (is_space : Char → Bool) (s : Settings) (minimum : OperatorRole) (principal : OperatorIdentity)
    → development_identity is_space s ≡ some principal
    → (require_role minimum principal ≡ granted principal)
      ↔ Covers
          (from_settings is_space s)
          (normalize_groups is_space (parse_csv is_space s.oidc_development_groups))
          minimum
unfolding development_identity
development_identity_iff is_space s minimum principal given =
    let groups = parse_csv is_space s.oidc_development_groups in
    let mapped = (map_groups is_space (from_settings is_space s) groups).roles in
    require_role-mapped is_space (from_settings is_space s) groups minimum principal
      (identity_with_roles-roles is_space s groups mapped principal given)
