-- ===== src/Callbacks/SourceVerifier.antt =====
-- The verification strategies of app/callbacks/source_verifier.py, and `compare_digest`.
use mpesa_mcp_server.Common.{
  String, Bool, true, false, ◌&&◌, Option, none, some, ◌==◌, ltb, if◌then◌else◌,
}
use mpesa_mcp_server.Common.Dict.{Dict, lookup}
use mpesa_mcp_server.Common.Exec.{Result, ok, err, exception}
use Prim.Native.String as S
use Prim.Native.Char.{code}

pub record CallbackSourceVerificationDecision : Type 0 where
  pub allowed : Bool
  pub reason : String

-- The classes of verifiers. The header's name is held in lower case.
pub data CallbackSourceVerifier : Type 0 where
  development strict_block : CallbackSourceVerifier
  trusted_proxy : String → String → CallbackSourceVerifier

abbrev pub is_ascii : String → Bool
is_ascii S.[] = true
is_ascii (S.◌∷◌ c s) = let rest = is_ascii s in if ltb (code c) 128 then rest else false

-- `secrets.compare_digest` on two texts, which raises TypeError beyond ASCII
unfoldable pub compare_digest : String → String → Result Bool
compare_digest a b =
    if is_ascii a && is_ascii b
    then ok (a == b)
    else err (exception "comparing strings with non-ASCII characters is not supported")

abbrev pub decision : Bool → String → CallbackSourceVerificationDecision
decision allowed reason = record { allowed = allowed; reason = reason }

abbrev pub of_comparison : Result Bool → Result CallbackSourceVerificationDecision
of_comparison (err e) = err e
of_comparison (ok true) = ok (decision true "Trusted callback proxy header validated.")
of_comparison (ok false) = ok (decision false "Trusted callback proxy header is invalid.")

abbrev pub verify_secret : Option String → String → Result CallbackSourceVerificationDecision
verify_secret none shared_secret = ok (decision false "Trusted callback proxy header is missing.")
verify_secret (some provided_secret) shared_secret =
    of_comparison (compare_digest provided_secret shared_secret)

-- `verify`; no strategy reads the payload
unfoldable pub verify :
    CallbackSourceVerifier → Dict String → Result CallbackSourceVerificationDecision
verify development headers =
    ok (decision true "Development callback source verifier allowed request.")
verify strict_block headers =
    ok (decision false "Callback source verification is in strict block mode.")
verify (trusted_proxy header_name shared_secret) headers =
    verify_secret (lookup header_name headers) shared_secret
