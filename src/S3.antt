-- ===== src/S3.antt =====
-- internal/services/aws/protocols/s3.go: the bucket, the key and the action of an S3 request.
pub mod Actions
pub mod Addressing
use emulate.Prelude.{
  Bool, true, false, Option, none, some, List, [], ◌∷◌, ◌||◌, not, String, string_eq, ◌==◌,
  if◌then◌else◌,
}
use emulate.Prelude.Text.{has_prefix, trim_prefix}
use emulate.Prelude.Split.{split, join, ends_with, drop_last}
use emulate.Prelude.Assoc.{Assoc, lookup, is_some}

pub data AddressingStyle : Type 0 where
  unknown : AddressingStyle
  path_style : AddressingStyle
  virtual_host : AddressingStyle

pub record S3Route : Type 0 where
  pub method : String
  pub bucket : String
  pub key : String
  pub action : String
  pub subresource : String
  pub copy_source : String
  pub query : Assoc String String
  pub addressing_style : AddressingStyle

-- What is read of an `http.Request`, with `URL.EscapedPath` and the header x-amz-copy-source.
pub record Request : Type 0 where
  pub method : String
  pub host : String
  pub escaped_path : String
  pub raw_query : String
  pub copy_source : String

-- What is taken from the packages net, net/url and strings, and `ParseQueryString` of the file
-- beside, with `none` for an error; `split_host_port` gives the host alone.
pub record Urls : Type 0 where
  pub path_unescape : String → Option String
  pub split_host_port : String → Option String
  pub to_lower : String → String
  pub parse_query_string : String → Option (Assoc String String)

-- `hasQueryKey`
unfoldable pub has_query_key : Assoc String String → String → Bool
has_query_key query key = is_some (lookup key query)

-- The value "2".
unfoldable pub is_two : Option String → Bool
is_two none = false
is_two (some value) = value == "2"

-- GET of a bucket in `DetectS3Action`, where a missing key of the query reads as empty.
unfoldable pub get_bucket_action : Assoc String String → String
get_bucket_action query =
    if has_query_key query "location"
    then "GetBucketLocation"
    else if has_query_key query "acl"
    then "GetBucketAcl"
    else if has_query_key query "lifecycle"
    then "GetBucketLifecycleConfiguration"
    else if has_query_key query "notification"
    then "GetBucketNotificationConfiguration"
    else if has_query_key query "policy"
    then "GetBucketPolicy"
    else if has_query_key query "tagging"
    then "GetBucketTagging"
    else if has_query_key query "versioning"
    then "GetBucketVersioning"
    else if has_query_key query "website"
    then "GetBucketWebsite"
    else if has_query_key query "uploads"
    then "ListMultipartUploads"
    else if is_two (lookup "list-type" query)
    then "ListObjectsV2"
    else "ListObjects"

-- PUT of a bucket.
unfoldable pub put_bucket_action : Assoc String String → String
put_bucket_action query =
    if has_query_key query "acl"
    then "PutBucketAcl"
    else if has_query_key query "lifecycle"
    then "PutBucketLifecycleConfiguration"
    else if has_query_key query "notification"
    then "PutBucketNotificationConfiguration"
    else if has_query_key query "policy"
    then "PutBucketPolicy"
    else if has_query_key query "tagging"
    then "PutBucketTagging"
    else if has_query_key query "versioning"
    then "PutBucketVersioning"
    else if has_query_key query "website"
    then "PutBucketWebsite"
    else "CreateBucket"

-- DELETE of a bucket.
unfoldable pub delete_bucket_action : Assoc String String → String
delete_bucket_action query =
    if has_query_key query "lifecycle"
    then "DeleteBucketLifecycle"
    else if has_query_key query "policy"
    then "DeleteBucketPolicy"
    else if has_query_key query "tagging"
    then "DeleteBucketTagging"
    else if has_query_key query "website"
    then "DeleteBucketWebsite"
    else "DeleteBucket"

-- The methods of a request for a bucket.
unfoldable pub bucket_action : String → Assoc String String → String
bucket_action method query =
    if method == "GET"
    then get_bucket_action query
    else if method == "HEAD"
    then "HeadBucket"
    else if method == "PUT"
    then put_bucket_action query
    else if method == "DELETE"
    then delete_bucket_action query
    else if method == "POST"
    then if has_query_key query "delete" then "DeleteObjects" else "PostObject"
    else ""

-- GET of an object.
unfoldable pub get_object_action : Assoc String String → String
get_object_action query =
    if has_query_key query "acl"
    then "GetObjectAcl"
    else if has_query_key query "tagging"
    then "GetObjectTagging"
    else "GetObject"

-- PUT of an object.
unfoldable pub put_object_action : Assoc String String → String → String
put_object_action query copy_source =
    if has_query_key query "acl"
    then "PutObjectAcl"
    else if has_query_key query "tagging"
    then "PutObjectTagging"
    else if has_query_key query "partNumber" || has_query_key query "uploadId"
    then if copy_source == "" then "UploadPart" else "UploadPartCopy"
    else if copy_source == ""
    then "PutObject"
    else "CopyObject"

-- DELETE of an object.
unfoldable pub delete_object_action : Assoc String String → String
delete_object_action query =
    if has_query_key query "tagging"
    then "DeleteObjectTagging"
    else if has_query_key query "uploadId"
    then "AbortMultipartUpload"
    else "DeleteObject"

-- POST of an object.
unfoldable pub post_object_action : Assoc String String → String
post_object_action query =
    if has_query_key query "uploads"
    then "CreateMultipartUpload"
    else if has_query_key query "uploadId"
    then "CompleteMultipartUpload"
    else "PostObject"

-- The methods of a request for an object.
unfoldable pub object_action : String → Assoc String String → String → String
object_action method query copy_source =
    if method == "GET"
    then get_object_action query
    else if method == "HEAD"
    then "HeadObject"
    else if method == "PUT"
    then put_object_action query copy_source
    else if method == "DELETE"
    then delete_object_action query
    else if method == "POST"
    then post_object_action query
    else ""

-- `DetectS3Action`
unfoldable pub detect_s3_action : S3Route → String
detect_s3_action route =
    if route.bucket == ""
    then if route.method == "GET" then "ListBuckets" else ""
    else if route.key == ""
    then bucket_action route.method route.query
    else object_action route.method route.query route.copy_source

-- The loop of `firstS3Subresource`.
unfoldable pub first_key : Assoc String String → List String → String
first_key query [] = ""
first_key query (key ∷ keys) = if has_query_key query key then key else first_key query keys

-- `firstS3Subresource`
unfoldable pub first_s3_subresource : Assoc String String → String
first_s3_subresource query = first_key query (
    "acl" ∷ "delete" ∷ "lifecycle" ∷ "location" ∷ "notification" ∷ "policy" ∷ "tagging" ∷ "uploadId"
    ∷ "uploads" ∷ "versioning" ∷ "website" ∷ [])

-- The tail of `pathStyleBucketAndKey`, once a leading piece `s3` is dropped.
unfoldable pub bucket_and_key : List String → String × String
bucket_and_key [] = ("", "")
bucket_and_key (bucket ∷ []) = if bucket == "" then ("", "") else (bucket, "")
bucket_and_key (bucket ∷ part ∷ parts) =
    if bucket == "" then ("", "") else (bucket, join "/" (part ∷ parts))

-- Drops a leading piece `s3`.
unfoldable pub without_s3 : List String → List String
without_s3 [] = []
without_s3 (part ∷ parts) = if part == "s3" then parts else part ∷ parts

-- A label that names the service.
unfoldable pub is_s3_label : String → Bool
is_s3_label label = label == "s3" || has_prefix label "s3-"

-- The loop of `virtualHostBucket`, which runs from the last label: the labels in front of the last
-- one that names the service.
unfoldable pub labels_before_s3 : List String → Option (List String)
labels_before_s3 [] = none
labels_before_s3 (label ∷ labels) =
    let later = labels_before_s3 labels in
    elim later [
      | none ↦ if is_s3_label label then some [] else none
      | some before ↦ some (label ∷ before)
    ]

-- `virtualHostBucket`, from the labels on
unfoldable pub bucket_of_labels : Option (List String) → String × AddressingStyle
bucket_of_labels none = ("", unknown)
bucket_of_labels (some []) = ("", unknown)
bucket_of_labels (some (label ∷ labels)) = (join "." (label ∷ labels), virtual_host)

-- `virtualHostBucket`
unfoldable pub virtual_host_bucket : String → String × AddressingStyle
virtual_host_bucket host = bucket_of_labels (labels_before_s3 (split b'.' host))

-- `strings.TrimSuffix` with a dot
unfoldable pub trim_dot : String → String
trim_dot value = if ends_with b'.' value then drop_last value else value

module _ (go : Urls) where
  -- `cleanS3Path`
  unfoldable pub clean_s3_path : String → String
  clean_s3_path escaped_path =
      let trimmed = trim_prefix escaped_path "/" in
      if trimmed == ""
      then ""
      else elim (go.path_unescape trimmed) [ none ↦ trimmed | some value ↦ value ]

  -- `pathStyleBucketAndKey`
  unfoldable pub path_style_bucket_and_key : String → String × String
  path_style_bucket_and_key escaped_path =
      let path_value = clean_s3_path escaped_path in
      if path_value == "" then ("", "") else bucket_and_key (without_s3 (split b'/' path_value))

  -- `normalizeHost`
  unfoldable pub normalize_host : String → String
  normalize_host host =
      trim_dot (go.to_lower (elim (go.split_host_port host) [ none ↦ host | some value ↦ value ]))

  -- The bucket, the key and the style in `ParseS3RESTRequest`.
  unfoldable pub addressed : Request → String × String × AddressingStyle
  addressed req =
      let (host_bucket, style) = virtual_host_bucket (normalize_host req.host) in
      let (bucket, key) = path_style_bucket_and_key req.escaped_path in
      if host_bucket == ""
      then (bucket, key, if bucket == "" then style else path_style)
      else (host_bucket, clean_s3_path req.escaped_path, style)

  -- `ParseS3RESTRequest`; `none` is the error
  unfoldable pub parse_s3_rest_request : Request → Option S3Route
  parse_s3_rest_request req = elim (go.parse_query_string req.raw_query) [
    | none ↦ none
    | some query ↦
        let (bucket, key, style) = addressed req in
        let route : S3Route = record {
          method = req.method;
          bucket = bucket;
          key = key;
          action = "";
          subresource = first_s3_subresource query;
          copy_source = req.copy_source;
          query = query;
          addressing_style = style;
        } in
        some (record route { action = detect_s3_action route })
  ]
