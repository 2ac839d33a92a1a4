-- ===== src/Tests/Cloud.antt =====
-- The theorems of the asset store and of the AWS requests at concrete inputs.
use emulate.Prelude.{
  ℕ, ◌≡◌, ◌≢◌, refl, ◌⊎◌, Option, none, some, true, false, List, [], ◌∷◌, ◌++◌, String, string_eq,
  nat_eq, ◌==◌, if◌then◌else◌, All,
}
use emulate.Prelude.Text.{has_prefix, trim_prefix}
use emulate.Prelude.Split.{split, join}
use emulate.Prelude.Result.{ok}
use emulate.Prelude.Assoc.{Assoc, lookup, put}
use emulate.Assets.{
  Platform, PutOptions, Metadata, Assets, bytes, full_snapshot, clone_metadata, build_metadata,
  put_bytes, restore_full_snapshot,
}
use emulate.Assets.Laws.{
  IsValid, put_bytes-IsValid, restore_full_snapshot-IsValid, bytes-put_bytes,
  restore_full_snapshot-full_snapshot,
}
use emulate.Auth.SigV4.{
  Strings, Request, Scope, Signature, scope_of_parts, is_empty, unescaped, kept_headers,
  parse_credential_scope, split_signed_headers, checked_signature, parse_presigned_sig_v4,
  has_presign_parameters, parse_sig_v4,
}
use emulate.Auth.SigV4.Laws.{
  parts, IsComplete, IsSigned, parse_credential_scope-ok, parse_sig_v4-IsSigned,
}
use emulate.Auth.Credentials.{
  Credential, find_credential, put_credential, delete_credential, find_credential-delete_credential,
  find_credential-put_credential,
}
use emulate.Auth.Resolve.{
  mode_relaxed, normalize_mode, valid_mode, Options, resolve, resolve_signature, resolve_key,
  initial_context,
}
use emulate.Auth.Resolve.Laws.{IsTokenMatch, resolve-authenticated}
use emulate.S3.{
  S3Route, path_style, virtual_host, is_s3_label, labels_before_s3, bucket_of_labels,
  detect_s3_action, virtual_host_bucket,
}
use emulate.S3.Actions.{is_reading, is_safe, detect_s3_action-Agrees}
use emulate.S3.Addressing.{virtual_host_bucket-host}

abbrev platform : Platform ℕ
platform = record {
  md5_hex = λ body. "d41d";
  sha256_hex = λ body. "e3b0";
  is_zero = λ time. time == 0;
  utc = λ time. time;
}

abbrev options : PutOptions ℕ
options = record {
  purpose = "upload";
  content_type = "";
  etag = "";
  last_modified = 0;
  user_metadata = [];
}

abbrev no_assets : Assets ℕ
no_assets = []

absurd-none : {A : Type 0} {B : Type 0} {a : B} → ◌≡◌ {A = Option B} none (some a) → A
absurd-none e = cc

no_assets-IsValid : IsValid platform no_assets
unfolding lookup
no_assets-IsValid = record { sound = λ id a found. absurd-none found; distinct = tt }

abbrev report : Metadata ℕ
report = clone_metadata (build_metadata platform "report" (104 ∷ 105 ∷ []) options 5)

abbrev one_asset : Assets ℕ
one_asset = put "report" (record { metadata = report; body = 104 ∷ 105 ∷ [] }) no_assets

put_report :
    put_bytes platform "report" (104 ∷ 105 ∷ []) options 5 no_assets ≡ ok (report, one_asset)
unfolding put_bytes
put_report = refl

bytes-put_bytes_example :
    bytes "report" one_asset
    ≡ (if report.id == report.id then some (104 ∷ 105 ∷ [], report) else bytes "report" no_assets)
unfolding build_metadata clone_metadata
bytes-put_bytes_example =
    bytes-put_bytes platform "report" "report" (104 ∷ 105 ∷ []) options 5 no_assets one_asset report
      put_report

one_asset-IsValid : IsValid platform one_asset
one_asset-IsValid =
    put_bytes-IsValid platform "report" (104 ∷ 105 ∷ []) options 5 no_assets one_asset report
      no_assets-IsValid put_report

restore_full_snapshot-IsValid_example :
    IsValid platform (restore_full_snapshot platform (full_snapshot one_asset) no_assets).1
restore_full_snapshot-IsValid_example =
    restore_full_snapshot-IsValid platform (full_snapshot one_asset) no_assets no_assets-IsValid

restore_full_snapshot-full_snapshot_example :
    ((restore_full_snapshot platform (full_snapshot one_asset) no_assets).0 ≡ none)
    × ((id : String)
        → lookup id (restore_full_snapshot platform (full_snapshot one_asset) no_assets).1
          ≡ lookup id one_asset)
restore_full_snapshot-full_snapshot_example =
    restore_full_snapshot-full_snapshot platform one_asset no_assets one_asset-IsValid

abbrev strings : Strings
strings = record {
  trim_space = λ s. s;
  to_lower = λ s. s;
  fields = λ s. split b' ' s;
  quote = λ s. s;
  query_unescape = λ s. some s;
}

abbrev raw_credential : String
raw_credential = "AKIA/20250101/us-east-1/s3/aws4_request"

abbrev query : String → String
query name =
    if name == "X-Amz-Algorithm"
    then "AWS4-HMAC-SHA256"
    else if name == "X-Amz-Credential"
    then raw_credential
    else if name == "X-Amz-SignedHeaders"
    then "host"
    else if name == "X-Amz-Signature"
    then "abcd"
    else ""

abbrev presigned : Request
presigned = record { query = query; header = λ name. "" }

abbrev credential : Credential
credential = record {
  access_key_id = "AKIA";
  secret_access_key = "secret";
  session_token = "";
  account_id = "";
  principal_arn = "";
  disabled = false;
}

abbrev credentials : Assoc String Credential
credentials = ("AKIA", credential) ∷ []

abbrev strict_options : Options
strict_options = record {
  mode = "strict";
  store = some credentials;
  default_account_id = "";
  default_principal_arn = "";
}

abbrev scope : Scope
scope = record {
  date = "20250101";
  region = "us-east-1";
  service = "s3";
  terminal = "aws4_request";
}

abbrev signature : Signature
signature = record {
  present = true;
  algorithm = "AWS4-HMAC-SHA256";
  access_key_id = "AKIA";
  scope = scope;
  signed_headers = "host" ∷ [];
  signature_value = "abcd";
  session_token = "";
  presigned = true;
  raw_credential = raw_credential;
}

scoped : parse_credential_scope strings raw_credential ≡ ok ("AKIA", scope)
unfolding parse_credential_scope unescaped scope_of_parts split
scoped = refl

parse_credential_scope-ok_example :
    (join "/" (parts "AKIA" scope) ≡ unescaped strings raw_credential) × IsComplete "AKIA" scope
parse_credential_scope-ok_example =
    parse_credential_scope-ok strings raw_credential "AKIA" scope scoped

signed : parse_sig_v4 strings presigned ≡ ok signature
unfolding parse_sig_v4 has_presign_parameters parse_presigned_sig_v4 checked_signature
    parse_credential_scope unescaped scope_of_parts split split_signed_headers kept_headers is_empty
signed = refl

parse_sig_v4-IsSigned_example : IsSigned strings signature
parse_sig_v4-IsSigned_example = parse_sig_v4-IsSigned strings presigned signature signed refl

strict-ne-relaxed : normalize_mode strict_options.mode ≢ mode_relaxed
unfolding normalize_mode
strict-ne-relaxed e = cc

passed : (resolve strings presigned strict_options).error ≡ none
unfolding resolve resolve_signature resolve_key initial_context valid_mode normalize_mode
    find_credential lookup parse_sig_v4 has_presign_parameters parse_presigned_sig_v4
    checked_signature parse_credential_scope unescaped scope_of_parts split split_signed_headers
    kept_headers is_empty
passed = refl

resolve-authenticated_example :
    (s : Signature) × (c : Credential) × (parse_sig_v4 strings presigned ≡ ok s)
    × (s.present ≡ true)
    × (find_credential strict_options.store s.access_key_id ≡ some c)
    × IsTokenMatch c s
    × ((resolve strings presigned strict_options).credential ≡ some c)
resolve-authenticated_example =
    resolve-authenticated strings presigned strict_options strict-ne-relaxed passed

abbrev key : String
key = "AKIA"

find_credential-delete_credential_example :
    find_credential (delete_credential (some credentials) key).1 key
    ≡ (if key == key then none else find_credential (some credentials) key)
find_credential-delete_credential_example =
    find_credential-delete_credential (some credentials) key key

find_credential-put_credential_example :
    find_credential (put_credential (some []) credential).1 key ≡ (
      if key == credential.access_key_id
      then if credential.disabled then none else some credential
      else find_credential (some []) key)
find_credential-put_credential_example = find_credential-put_credential [] credential key refl

abbrev route : S3Route
route = record {
  method = "DELETE";
  bucket = "uploads";
  key = "a/b";
  action = "";
  subresource = "tagging";
  copy_source = "";
  query = ("tagging", "") ∷ [];
  addressing_style = path_style;
}

detect_s3_action-Agrees_example :
    (detect_s3_action route ≡ "") ⊎ (is_reading (detect_s3_action route) ≡ is_safe route.method)
detect_s3_action-Agrees_example = detect_s3_action-Agrees route

hosted : virtual_host_bucket "uploads.s3.local" ≡ ("uploads", virtual_host)
unfolding virtual_host_bucket bucket_of_labels labels_before_s3 is_s3_label split join has_prefix
    trim_prefix
hosted = refl

abbrev bucket : String
bucket = "uploads"

abbrev host : String
host = "uploads.s3.local"

virtual_host_bucket-host_example :
    (label first : String) × (more after : List String) × (bucket ≡ join "." (first ∷ more))
    × (host ≡ join "." (first ∷ more ++ label ∷ after))
    × (is_s3_label label ≡ true)
    × All (λ l. is_s3_label l ≡ false) after
virtual_host_bucket-host_example = virtual_host_bucket-host host bucket hosted
