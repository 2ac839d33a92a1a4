-- ===== src/Auth/Resolve.antt =====
-- internal/services/aws/auth/mode.go and resolve.go: which principal a request acts for.
pub mod Laws
use emulate.Prelude.{
  ℕ, Bool, true, false, Option, none, some, ◌&&◌, ◌||◌, not, String, string_eq, ◌==◌, if◌then◌else◌,
}
use Prim.Native.String
use emulate.Prelude.Result.{Result, ok, err}
use emulate.Auth.SigV4.{Strings, Request, Signature, no_signature, parse_sig_v4}
use emulate.Auth.Credentials.{Credential, CredentialStore, find_credential}

-- `ModeRelaxed`
abbrev pub mode_relaxed : String
mode_relaxed = "relaxed"

-- `Mode.Valid`
unfoldable pub valid_mode : String → Bool
valid_mode mode = mode == mode_relaxed || mode == "known-keys" || mode == "strict"

-- `NormalizeMode`
unfoldable pub normalize_mode : String → String
normalize_mode mode = if mode == "" then mode_relaxed else mode

-- `ParseMode`; `none` is the error
unfoldable pub parse_mode : Strings → String → Option String
parse_mode go value =
    let mode = go.trim_space (go.to_lower value) in
    if mode == "" then some mode_relaxed else if valid_mode mode then some mode else none

pub data Status : Type 0 where
  missing : Status
  relaxed : Status
  known : Status
  unknown_key : Status
  invalid : Status

pub record AuthError : Type 0 where
  pub code : String
  pub message : String
  pub status_code : ℕ

pub record Context : Type 0 where
  pub mode : String
  pub status : Status
  pub signature : Signature
  pub credential : Option Credential
  pub account_id : String
  pub principal_arn : String
  pub error : Option AuthError
  pub strict_signature_validation : Bool

pub record Options : Type 0 where
  pub mode : String
  pub store : CredentialStore
  pub default_account_id : String
  pub default_principal_arn : String

-- `firstNonEmpty`, of the two values that each call has
unfoldable pub first_non_empty : String → String → String
first_non_empty first second = if first == "" then second else first

-- `defaultPrincipalARN`
unfoldable pub default_principal_arn : String → String
default_principal_arn account_id =
    String.◌++◌ "arn:aws:iam::" (String.◌++◌ account_id ":user/emulate")

-- The context that `Resolve` starts from, with its first status.
unfoldable pub initial_context : Options → Status → Context
initial_context options status =
    let account_id = first_non_empty options.default_account_id "123456789012" in
    record {
      mode = normalize_mode options.mode;
      status = status;
      signature = no_signature;
      credential = none;
      account_id = account_id;
      principal_arn =
          first_non_empty options.default_principal_arn (default_principal_arn account_id);
      error = none;
      strict_signature_validation = false;
    }

-- The rest of `Resolve`, for a signature that is present: `ctx` has it.
unfoldable pub resolve_key : Options → Context → Signature → Context
resolve_key options ctx signature = elim (find_credential options.store signature.access_key_id) [
  | some credential ↦
      let account_id = first_non_empty credential.account_id ctx.account_id in
      if not (credential.session_token == "")
        && not (signature.session_token == credential.session_token)
      then record ctx {
        status = invalid;
        error = some (record {
          code = "InvalidToken";
          message = "The provided token is malformed or otherwise invalid.";
          status_code = 403;
        });
      }
      else record ctx {
        status = known;
        credential = some credential;
        account_id = account_id;
        principal_arn = first_non_empty credential.principal_arn (default_principal_arn account_id);
      }
  | none ↦ if ctx.mode == mode_relaxed then record ctx { status = relaxed } else record ctx {
    status = unknown_key;
    error = some (record {
      code = "InvalidAccessKeyId";
      message = "The AWS access key Id you provided does not exist in our records.";
      status_code = 403;
    });
  }
]

-- The branches of `Resolve` once the mode is accepted.
unfoldable pub resolve_signature : Options → Result String Signature → Context
resolve_signature options (err message) = record (initial_context options invalid) {
  error =
      some (record { code = "AuthorizationHeaderMalformed"; message = message; status_code = 400 });
}
resolve_signature options (ok signature) =
    let ctx = record (initial_context options missing) { signature = signature } in
    if signature.present
    then resolve_key options ctx signature
    else if ctx.mode == mode_relaxed
    then ctx
    else record ctx {
      error = some (record {
        code = "MissingAuthenticationToken";
        message = "Request is missing AWS authentication credentials.";
        status_code = 403;
      });
    }

-- `Resolve`
unfoldable pub resolve : Strings → Request → Options → Context
resolve go req options =
    if not (valid_mode (normalize_mode options.mode))
    then record (initial_context options invalid) {
      error = some (record {
        code = "InvalidAuthMode";
        message =
            String.◌++◌ "Configured AWS auth mode "
              (String.◌++◌ (go.quote options.mode) " is invalid.");
        status_code = 500;
      });
    }
    else resolve_signature options (parse_sig_v4 go req)
