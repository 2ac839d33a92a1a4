-- ===== src/Auth/SigV4.antt =====
-- internal/services/aws/auth/sigv4.go: what a request says of its signature.
pub mod Laws
use emulate.Prelude.{
  ℕ, Bool, true, false, Option, none, some, List, [], ◌∷◌, ◌&&◌, ◌||◌, not, String, string_eq, ◌==◌,
  if◌then◌else◌,
}
use Prim.Native.String
use emulate.Prelude.Text.{trim_prefix}
use emulate.Prelude.Split.{split, cut_at}
use emulate.Prelude.Result.{Result, ok, err, ◌>>=◌}
use emulate.Prelude.Assoc.{Assoc, lookup, put}

-- What the parser takes from the packages strings, fmt and net/url. `query_unescape` gives `none`
-- for an error.
pub record Strings : Type 0 where
  pub trim_space : String → String
  pub to_lower : String → String
  pub fields : String → List String
  pub quote : String → String
  pub query_unescape : String → Option String

-- What is read of an `http.Request`: `URL.Query().Get` and `Header.Get`.
pub record Request : Type 0 where
  pub query : String → String
  pub header : String → String

pub record Scope : Type 0 where
  pub date : String
  pub region : String
  pub service : String
  pub terminal : String

pub record Signature : Type 0 where
  pub present : Bool
  pub algorithm : String
  pub access_key_id : String
  pub scope : Scope
  pub signed_headers : List String
  pub signature_value : String
  pub session_token : String
  pub presigned : Bool
  pub raw_credential : String

-- `Signature{}`
abbrev pub no_signature : Signature
no_signature = record {
  present = false;
  algorithm = "";
  access_key_id = "";
  scope = record { date = ""; region = ""; service = ""; terminal = "" };
  signed_headers = [];
  signature_value = "";
  session_token = "";
  presigned = false;
  raw_credential = "";
}

-- `AlgorithmSigV4`
abbrev pub algorithm_sig_v4 : String
algorithm_sig_v4 = "AWS4-HMAC-SHA256"

-- The checks of `ParseCredentialScope` on the pieces.
unfoldable pub scope_of_parts : List String → Result String (String × Scope)
scope_of_parts (key ∷ date ∷ region ∷ service ∷ terminal ∷ []) =
    if key == ""
    then err "missing SigV4 access key id"
    else if date == "" || region == "" || service == "" || terminal == ""
    then err "invalid SigV4 credential scope"
    else if not (terminal == "aws4_request")
    then err "invalid SigV4 credential scope"
    else ok (key, record { date = date; region = region; service = service; terminal = terminal })
scope_of_parts parts = err "invalid SigV4 credential scope"

-- A value of the map, where a missing one reads as the empty string.
unfoldable pub param : String → Assoc String String → String
param key params = elim (lookup key params) [ none ↦ "" | some value ↦ value ]

-- `hasPresignParameters`
unfoldable pub has_presign_parameters : Request → Bool
has_presign_parameters req =
    not (req.query "X-Amz-Algorithm" == "")
    || not (req.query "X-Amz-Credential" == "")
    || not (req.query "X-Amz-Signature" == "")

-- len(list) == 0
unfoldable pub is_empty : List String → Bool
is_empty [] = true
is_empty (x ∷ xs) = false

module _ (go : Strings) where
  -- The decoding in `ParseCredentialScope`.
  unfoldable pub unescaped : String → String
  unescaped value = elim (go.query_unescape value) [ none ↦ value | some decoded ↦ decoded ]

  -- `ParseCredentialScope`
  unfoldable pub parse_credential_scope : String → Result String (String × Scope)
  parse_credential_scope value =
      let trimmed = go.trim_space value in
      if trimmed == ""
      then err "missing SigV4 credential"
      else scope_of_parts (split b'/' (unescaped trimmed))

  -- The loop of `splitSignedHeaders`.
  unfoldable pub kept_headers : List String → List String
  kept_headers [] = []
  kept_headers (part ∷ parts) =
      let name = go.trim_space (go.to_lower part) in
      let rest = kept_headers parts in if name == "" then rest else name ∷ rest

  -- `splitSignedHeaders`
  unfoldable pub split_signed_headers : String → List String
  split_signed_headers value =
      if go.trim_space value == "" then [] else kept_headers (split b';' value)

  -- `isTokenAuthorizationScheme`
  unfoldable pub is_token_authorization_scheme : String → Bool
  is_token_authorization_scheme algorithm =
      let lower = go.to_lower algorithm in lower == "bearer" || lower == "token"

  -- A round of the loop of `parseAuthorizationParams`.
  unfoldable pub add_param : String → Assoc String String → Assoc String String
  add_param piece params =
      let part = go.trim_space piece in
      if part == "" then params else elim (cut_at b'=' part) [
        | none ↦ params
        | some (key, value) ↦ put (go.trim_space key) (go.trim_space value) params
      ]

  unfoldable pub add_params : List String → Assoc String String → Assoc String String
  add_params [] params = params
  add_params (piece ∷ pieces) params = add_params pieces (add_param piece params)

  -- `parseAuthorizationParams`
  unfoldable pub parse_authorization_params : String → Assoc String String
  parse_authorization_params value = add_params (split b',' value) []

  -- What both parsers do once the algorithm is accepted: the credential, the signed headers and
  -- the signature, checked in this order.
  unfoldable pub checked_signature :
      String → String → String → String → Bool → String → Result String Signature
  checked_signature raw_credential headers value token presigned algorithm =
      let signed_headers = split_signed_headers headers in
      let signature_value = go.trim_space value in
      parse_credential_scope raw_credential >>= λ (key, scope).
      if is_empty signed_headers
      then err "missing SigV4 signed headers"
      else if signature_value == ""
      then err "missing SigV4 signature"
      else ok (record {
        present = true;
        algorithm = algorithm;
        access_key_id = key;
        scope = scope;
        signed_headers = signed_headers;
        signature_value = signature_value;
        session_token = token;
        presigned = presigned;
        raw_credential = raw_credential;
      })

  -- `parsePresignedSigV4`
  unfoldable pub parse_presigned_sig_v4 : Request → Result String Signature
  parse_presigned_sig_v4 req =
      let algorithm = go.trim_space (req.query "X-Amz-Algorithm") in
      if algorithm == ""
      then err "missing SigV4 algorithm"
      else if not (algorithm == algorithm_sig_v4)
      then err (String.◌++◌ "unsupported SigV4 algorithm " (go.quote algorithm))
      else checked_signature (req.query "X-Amz-Credential") (req.query "X-Amz-SignedHeaders")
          (req.query "X-Amz-Signature") (req.query "X-Amz-Security-Token") true algorithm

  -- `parseAuthorizationHeader`, from the fields of the header on.
  unfoldable pub parse_fields : Request → String → List String → Result String Signature
  parse_fields req header [] = ok no_signature
  parse_fields req header (algorithm ∷ more) =
      let params = parse_authorization_params (go.trim_space (trim_prefix header algorithm)) in
      if is_token_authorization_scheme algorithm
      then ok no_signature
      else if not (algorithm == algorithm_sig_v4)
      then err (String.◌++◌ "unsupported SigV4 algorithm " (go.quote algorithm))
      else checked_signature (param "Credential" params) (param "SignedHeaders" params)
          (param "Signature" params) (req.header "X-Amz-Security-Token") false algorithm

  -- `parseAuthorizationHeader`
  unfoldable pub parse_authorization_header : Request → Result String Signature
  parse_authorization_header req =
      let header = go.trim_space (req.header "Authorization") in
      if header == "" then ok no_signature else parse_fields req header (go.fields header)

  -- `ParseSigV4`
  unfoldable pub parse_sig_v4 : Request → Result String Signature
  parse_sig_v4 req =
      if has_presign_parameters req
      then parse_presigned_sig_v4 req
      else parse_authorization_header req
