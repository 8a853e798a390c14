-- ===== src/Auth/Security/Grants.antt =====
-- Whom app/auth/security.py takes a request to come from.
use mpesa_mcp_server.Common.{
  String, ◌≡◌, ◌≢◌, refl, sym, ap, subst, ◌∙◌, Bool, true, false, ◌&&◌, if◌then◌else◌, ◌⊎◌, inl,
  inr, Option, none, some, List, [], ◌∷◌, ◌≤◌, ◌==◌, leb, arith, eq_iff, Bool-cases, Option-cases,
}
use mpesa_mcp_server.Common.Exec.{Result, ok, err, Result-cases}
use mpesa_mcp_server.Config.Settings.{Settings}
use mpesa_mcp_server.Callbacks.SourceVerifier.{compare_digest, is_ascii}
use mpesa_mcp_server.Auth.Identity.{
  OperatorRole, OperatorIdentity, viewer, approver, role_level, role,
}
use mpesa_mcp_server.Auth.Security.{
  Access, granted, http_exception, failure, require, require_role, local_admin,
  extract_bearer_token, authenticate, access_of, get_operator_principal, find_token,
  token_authenticate, token_identity, on_match, unauthorized,
}
use Prim.Native.Char.{Char}

abbrev principal_or : OperatorIdentity → Access → OperatorIdentity
principal_or p (granted q) = q
principal_or p (http_exception code detail) = p
principal_or p (failure e) = p

abbrev is_granted : Access → Bool
is_granted (granted principal) = true
is_granted (http_exception code detail) = false
is_granted (failure e) = false

-- A role check lets through a principal that has been found, and that has at least the role.
pub require-granted :
    (minimum : OperatorRole) (access : Access) (p : OperatorIdentity)
    → require minimum access ≡ granted p
    → (access ≡ granted p) × (role_level minimum ≤ role_level (role p))
unfolding require_role
require-granted minimum (granted q) p e =
    elim (Bool-cases (leb (role_level minimum) (role_level (role q)))) [
      | inl high ↦
          let same : granted q ≡ granted p = rw high at e in
          let q_p : q ≡ p = ap (principal_or q) same in
          (same, subst (λ x. role_level minimum ≤ role_level (role x)) q_p (ground (arith, high)))
      | inr low ↦ absurd (ground (arith, ap is_granted e, low))
    ]
require-granted minimum (http_exception code detail) p e = absurd (ground (arith, ap is_granted e))
require-granted minimum (failure error) p e = absurd (ground (arith, ap is_granted e))

module _ (is_space : Char → Bool) (lower : String → String)
    (jwks : Settings → Option String → Option OperatorIdentity) (s : Settings) where
  -- The principal is the local administrator while authentication is off, or the identity that the
  -- provider of the settings knows by the bearer token of the header.
  abbrev pub IsIdentified : Option String → OperatorIdentity → Type 0
  IsIdentified authorization p =
      ((s.operator_auth_enabled ≡ false) × (p ≡ local_admin))
      ⊎ ((token : String) × (extract_bearer_token is_space lower jwks authorization ≡ some token)
          × (authenticate is_space lower jwks s (some token) ≡ ok (some p)))

  access_of-granted :
      (r : Result (Option OperatorIdentity)) (p : OperatorIdentity)
      → access_of is_space lower jwks r ≡ granted p
      → r ≡ ok (some p)
  access_of-granted (ok (some q)) p e = ap (λ a. ok (some (principal_or q a))) e
  access_of-granted (ok none) p e = absurd (ground (arith, ap is_granted e))
  access_of-granted (err error) p e = absurd (ground (arith, ap is_granted e))

  pub get_operator_principal-IsIdentified :
      (authorization : Option String) (p : OperatorIdentity)
      → get_operator_principal is_space lower jwks s authorization ≡ granted p
      → IsIdentified authorization p
  unfolding get_operator_principal
  get_operator_principal-IsIdentified authorization p e =
      let access = get_operator_principal is_space lower jwks s authorization in
      elim (Bool-cases s.operator_auth_enabled) [
        | inr off ↦
            let local : access ≡ granted local_admin = rw off refl in
            inl (off, sym (ap (principal_or local_admin) (sym local ∙ e)))
        | inl on ↦ elim (Option-cases (extract_bearer_token is_space lower jwks authorization)) [
          | inl missing ↦
              let refused : access ≡ unauthorized = rw (on, missing) refl in
              absurd (ground (arith, ap is_granted (sym refused ∙ e)))
          | inr (token, there) ↦
              let asked : access
                  ≡ access_of is_space lower jwks
                      (authenticate is_space lower jwks s (some token)) =
                rw (on, there) refl in
              inr (token, there, access_of-granted _ p (sym asked ∙ e))
        ]
      ]

  -- The request comes from an operator who is known and has at least this role.
  abbrev pub ByRole : OperatorRole → Option String → OperatorIdentity → Type 0
  ByRole minimum authorization p =
      IsIdentified authorization p × (role_level minimum ≤ role_level (role p))

  pub ByRole-granted :
      (minimum : OperatorRole) (authorization : Option String) (p : OperatorIdentity)
      → require minimum (get_operator_principal is_space lower jwks s authorization) ≡ granted p
      → ByRole minimum authorization p
  ByRole-granted minimum authorization p e =
      let (known, high) = require-granted minimum _ p e in
      (get_operator_principal-IsIdentified authorization p known, high)

abbrev some_result : Result (Option OperatorIdentity) → Bool
some_result (ok found) = true
some_result (err e) = false

abbrev identity_or : OperatorIdentity → Result (Option OperatorIdentity) → OperatorIdentity
identity_or p (ok (some q)) = q
identity_or p (ok none) = p
identity_or p (err e) = p

abbrev is_true : Result Bool → Bool
is_true (ok b) = b
is_true (err e) = false

compare_digest-equal : (a b : String) → compare_digest a b ≡ ok true → a ≡ b
unfolding compare_digest
compare_digest-equal a b e = elim (Bool-cases (is_ascii a && is_ascii b)) [
  | inl plain ↦ (eq_iff a b).0 (ap is_true (rw plain at e))
  | inr other ↦ absurd (ground (arith, ap is_true (rw other at e)))
]

abbrev has_identity : Result (Option OperatorIdentity) → Bool
has_identity (ok (some q)) = true
has_identity (ok none) = false
has_identity (err e) = false

-- One step of the search: the token is that of the first entry, or the search goes on.
find_token-step :
    (credential : String) (configured : Option String) (identity p : OperatorIdentity)
    (tokens : List (Option String × OperatorIdentity))
    → find_token credential ((configured, identity) ∷ tokens) ≡ ok (some p)
    → ((configured ≡ some credential) × (credential ≢ "") × (identity ≡ p))
      ⊎ (find_token credential tokens ≡ ok (some p))
unfolding find_token
find_token-step credential none identity p tokens e = inr e
find_token-step credential (some configured) identity p tokens e =
    elim (Bool-cases (configured == "")) [
      | inl empty ↦ inr (rw empty at e)
      | inr filled ↦
          let compared : on_match (compare_digest credential configured) identity
                (find_token credential tokens)
              ≡ ok (some p) =
            rw filled at e in
          elim (Result-cases (compare_digest credential configured)) [
            | inr (error, raised) ↦ absurd (ground (arith, ap some_result (rw raised at compared)))
            | inl (same, compares) ↦
                let matched : (if same then ok (some identity) else find_token credential tokens)
                    ≡ ok (some p) =
                  rw compares at compared in
                elim (Bool-cases same) [
                  | inr other ↦ inr (rw other at matched)
                  | inl equal ↦
                      let agree =
                        compare_digest-equal credential configured (compares ∙ ap ok equal) in
                      inl (
                        ap some (sym agree),
                        λ none_given.
                            ground
                              (arith, (eq_iff configured "").1 (sym agree ∙ none_given), filled),
                        ap (identity_or identity) (rw equal at matched),
                      )
                ]
          ]
    ]

find_token-nothing :
    (credential : String) (p : OperatorIdentity) → find_token credential [] ≢ ok (some p)
unfolding find_token
find_token-nothing credential p e = ground (arith, ap has_identity e)

viewer-level :
    (p : OperatorIdentity)
    → token_identity "operator-viewer" "Operator Viewer" viewer ≡ p
    → role_level (role p) ≡ 1
unfolding role
viewer-level p same = sym (ap (λ i. role_level (role i)) same)

-- A static token that gives at least the role of an approver is the approver's or the admin's.
pub find_token-approver :
    (s : Settings) (credential : String) (p : OperatorIdentity)
    → token_authenticate s (some credential) ≡ ok (some p)
    → role_level approver ≤ role_level (role p)
    → (credential ≢ "")
      × ((s.operator_approver_token ≡ some credential) ⊎ (s.operator_admin_token ≡ some credential))
unfolding token_authenticate
find_token-approver s credential p e high = elim (find_token-step credential _ _ p _ e) [
  | inl (viewer_token, given, same) ↦ absurd (ground (arith, high, viewer-level p same))
  | inr later ↦ elim (find_token-step credential _ _ p _ later) [
    | inl (approver_token, given, same) ↦ (given, inl approver_token)
    | inr last ↦ elim (find_token-step credential _ _ p _ last) [
      | inl (admin_token, given, same) ↦ (given, inr admin_token)
      | inr nothing ↦ absurd (find_token-nothing credential p nothing)
    ]
  ]
]
