-- ===== src/Auth/Mapping/Laws.antt =====
-- Which roles the mapping of app/auth/role_mapping.py gives.
use mpesa_mcp_server.Common.{
  ℕ, String, ◌≡◌, refl, sym, ap, ◌∙◌, Bool, true, ◌||◌, ◌↔◌, ◌⊎◌, inl, inr, Option, none, some,
  List, [], ◌∷◌, ◌++◌, ◌≤◌, contains, leb, ◌==◌, arith, eq_iff, eq_refl, Bool-cases,
}
use mpesa_mcp_server.Common.Dict.{Dict, lookup}
use mpesa_mcp_server.Auth.Identity.{OperatorRole, viewer, approver, admin, role_level}
use mpesa_mcp_server.Auth.Mapping.{
  role_order, role_inheritance, has_role, in_order, map_group, map_each, Mapped, nothing_mapped,
  normalize_groups, map_groups,
}
use Prim.Native.Char.{Char}

-- Among the groups is one that is mapped to this role or a higher one.
abbrev pub Covers : Dict OperatorRole → List String → OperatorRole → Type 0
Covers group_role_map groups r =
    (group : String) × (q : OperatorRole) × (contains groups group ≡ true)
    × (lookup group group_role_map ≡ some q)
    × (role_level r ≤ role_level q)

pub has_role-append :
    (xs ys : List OperatorRole) (r : OperatorRole)
    → has_role (xs ++ ys) r ≡ (has_role xs r || has_role ys r)
has_role-append [] ys r = refl
has_role-append (x ∷ xs) ys r = ground (arith, has_role-append xs ys r)

has_role-inheritance :
    (q r : OperatorRole) → has_role (role_inheritance q) r ≡ leb (role_level r) (role_level q)
has_role-inheritance viewer viewer = refl
has_role-inheritance viewer approver = refl
has_role-inheritance viewer admin = refl
has_role-inheritance approver viewer = refl
has_role-inheritance approver approver = refl
has_role-inheritance approver admin = refl
has_role-inheritance admin viewer = refl
has_role-inheritance admin approver = refl
has_role-inheritance admin admin = refl

-- The order of the roles names each of them.
has_role-in_order :
    (mapped : List OperatorRole) (r : OperatorRole)
    → has_role (in_order role_order mapped) r ≡ has_role mapped r
has_role-in_order mapped viewer = ground arith
has_role-in_order mapped approver = ground arith
has_role-in_order mapped admin = ground arith

Covers-later :
    (m : Dict OperatorRole) (group : String) (groups : List String) (r : OperatorRole)
    → Covers m groups r
    → Covers m (group ∷ groups) r
Covers-later m group groups r (g, q, there, found, level) =
    (g, q, ground (arith, there), found, level)

abbrev level_or_zero : Option OperatorRole → ℕ
level_or_zero none = 0
level_or_zero (some role) = role_level role

-- The mapping of one group covers the role.
abbrev CoversOne : Option OperatorRole → OperatorRole → Type 0
CoversOne found r = (q : OperatorRole) × (found ≡ some q) × (role_level r ≤ role_level q)

map_group-roles :
    (group : String) (found : Option OperatorRole) (before : Mapped) (r : OperatorRole)
    → (has_role (map_group group found before).mapped_roles r ≡ true)
      ↔ ((has_role before.mapped_roles r ≡ true) ⊎ CoversOne found r)
map_group-roles group none before r =
    (λ h. inl h, λ h. elim h [ inl there ↦ there | inr (q, e, level) ↦ absurd (ground (arith, e)) ])
map_group-roles group (some role) before r =
    let joined = has_role-append before.mapped_roles (role_inheritance role) r in
    let inherited = has_role-inheritance role r in
    (
      λ h. elim (Bool-cases (has_role before.mapped_roles r)) [
        | inl there ↦ inl there
        | inr fresh ↦ inr (role, refl, ground (arith, h, joined, inherited, fresh))
      ],
      λ h. elim h [
        | inl there ↦ ground (arith, joined, there)
        | inr (q, e, level) ↦ ground (arith, joined, inherited, ap level_or_zero e, level)
      ],
    )

map_each-roles :
    (m : Dict OperatorRole) (groups : List String) (before : Mapped) (r : OperatorRole)
    → (has_role (map_each m groups before).mapped_roles r ≡ true)
      ↔ ((has_role before.mapped_roles r ≡ true) ⊎ Covers m groups r)
unfolding map_each
map_each-roles m [] before r = (
  λ h. inl h,
  λ h. elim h [
    | inl there ↦ there
    | inr (g, q, there, found, level) ↦ absurd (ground (arith, there))
  ],
)
map_each-roles m (group ∷ groups) before r =
    let one = map_group-roles group (lookup group m) before r in
    let later = map_each-roles m groups (map_group group (lookup group m) before) r in
    (
      λ h. elim (later.0 h) [
        | inl now ↦ elim (one.0 now) [
          | inl there ↦ inl there
          | inr (q, found, level) ↦ inr (group, q, ground (arith, eq_refl group), found, level)
        ]
        | inr covers ↦ inr (Covers-later m group groups r covers)
      ],
      λ h. elim h [
        | inl there ↦ later.1 (inl (one.1 (inl there)))
        | inr (g, q, there, found, level) ↦ elim (Bool-cases (group == g)) [
          | inl same ↦
              later.1 (
                inl
                  (one.1 (inr (q, ap (λ t. lookup t m) ((eq_iff group g).0 same) ∙ found, level))))
          | inr other ↦ later.1 (inr (g, q, ground (arith, there, other), found, level))
        ]
      ],
    )

-- The mapping gives exactly the roles at or below the role of a group that is mapped.
pub map_groups_lem :
    (is_space : Char → Bool) (m : Dict OperatorRole) (groups : List String) (r : OperatorRole)
    → (has_role (map_groups is_space m groups).roles r ≡ true)
      ↔ Covers m (normalize_groups is_space groups) r
unfolding map_groups
map_groups_lem is_space m groups r =
    let each = map_each-roles m (normalize_groups is_space groups) nothing_mapped r in
    let ordered =
      has_role-in_order (map_each m (normalize_groups is_space groups) nothing_mapped).mapped_roles
        r in
    (
      λ h. elim (each.0 (sym ordered ∙ h)) [
        | inl none_yet ↦ absurd (ground (arith, none_yet))
        | inr covers ↦ covers
      ],
      λ covers. ordered ∙ each.1 (inr covers),
    )
