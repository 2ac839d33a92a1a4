-- ===== src/S3/Actions.antt =====
-- The action of a request and its method.
use emulate.Prelude.{
  ◌≡◌, refl, ◌⊎◌, inl, inr, Bool, true, false, ◌||◌, String, string_eq, ◌==◌, if◌then◌else◌, arith,
  Bool-cases,
}
use text.Mathlib.TextEquality.{eq_iff}
use emulate.Prelude.Text.{has_prefix}
use emulate.Prelude.Assoc.{Assoc, lookup}
use emulate.S3.{
  S3Route, has_query_key, is_two, get_bucket_action, put_bucket_action, delete_bucket_action,
  bucket_action, get_object_action, put_object_action, delete_object_action, post_object_action,
  object_action, detect_s3_action,
}

-- An action that reads, by its name.
unfoldable pub is_reading : String → Bool
is_reading action = has_prefix action "Get" || has_prefix action "List" || has_prefix action "Head"

-- A method that reads.
unfoldable pub is_safe : String → Bool
is_safe method = method == "GET" || method == "HEAD"

-- A name that reads just when the method does, or no name at all.
abbrev Agrees : String → String → Type 0
Agrees method action = (action ≡ "") ⊎ (is_reading action ≡ is_safe method)

-- A name that reads, or does not.
data Reads (v : Bool) (action : String) : Type 0 where
  reads : is_reading action ≡ v → Reads v action

is_reading_of_Reads : {v : Bool} {action : String} → Reads v action → is_reading action ≡ v
is_reading_of_Reads (reads h) = h

Reads-by : {v : Bool} (action : String) → is_reading action ≡ v → Reads v action
Reads-by action h = reads h

Reads-if :
    {v : Bool} (b : Bool) {s t : String} → Reads v s → Reads v t → Reads v (if b then s else t)
Reads-if true h k = h
Reads-if false h k = k

get_bucket_action-Reads : (query : Assoc String String) → Reads true (get_bucket_action query)
unfolding is_reading has_prefix get_bucket_action
get_bucket_action-Reads query =
    Reads-if (has_query_key query "location") (Reads-by "GetBucketLocation" refl) (
      Reads-if (has_query_key query "acl") (Reads-by "GetBucketAcl" refl) (
        Reads-if (has_query_key query "lifecycle") (Reads-by "GetBucketLifecycleConfiguration" refl)
          (Reads-if (has_query_key query "notification")
            (Reads-by "GetBucketNotificationConfiguration" refl)
            (Reads-if (has_query_key query "policy") (Reads-by "GetBucketPolicy" refl) (
              Reads-if (has_query_key query "tagging") (Reads-by "GetBucketTagging" refl) (
                Reads-if (has_query_key query "versioning") (Reads-by "GetBucketVersioning" refl) (
                  Reads-if (has_query_key query "website") (Reads-by "GetBucketWebsite" refl) (
                    Reads-if (has_query_key query "uploads") (Reads-by "ListMultipartUploads" refl)
                      (Reads-if (is_two (lookup "list-type" query)) (Reads-by "ListObjectsV2" refl)
                        (Reads-by "ListObjects" refl))))))))))

put_bucket_action-Reads : (query : Assoc String String) → Reads false (put_bucket_action query)
unfolding is_reading has_prefix put_bucket_action
put_bucket_action-Reads query =
    Reads-if (has_query_key query "acl") (Reads-by "PutBucketAcl" refl) (
      Reads-if (has_query_key query "lifecycle") (Reads-by "PutBucketLifecycleConfiguration" refl) (
        Reads-if (has_query_key query "notification")
          (Reads-by "PutBucketNotificationConfiguration" refl)
          (Reads-if (has_query_key query "policy") (Reads-by "PutBucketPolicy" refl) (
            Reads-if (has_query_key query "tagging") (Reads-by "PutBucketTagging" refl) (
              Reads-if (has_query_key query "versioning") (Reads-by "PutBucketVersioning" refl) (
                Reads-if (has_query_key query "website") (Reads-by "PutBucketWebsite" refl)
                  (Reads-by "CreateBucket" refl)))))))

delete_bucket_action-Reads :
    (query : Assoc String String) → Reads false (delete_bucket_action query)
unfolding is_reading has_prefix delete_bucket_action
delete_bucket_action-Reads query =
    Reads-if (has_query_key query "lifecycle") (Reads-by "DeleteBucketLifecycle" refl) (
      Reads-if (has_query_key query "policy") (Reads-by "DeleteBucketPolicy" refl) (
        Reads-if (has_query_key query "tagging") (Reads-by "DeleteBucketTagging" refl) (
          Reads-if (has_query_key query "website") (Reads-by "DeleteBucketWebsite" refl)
            (Reads-by "DeleteBucket" refl))))

get_object_action-Reads : (query : Assoc String String) → Reads true (get_object_action query)
unfolding is_reading has_prefix get_object_action
get_object_action-Reads query =
    Reads-if (has_query_key query "acl") (Reads-by "GetObjectAcl" refl) (
      Reads-if (has_query_key query "tagging") (Reads-by "GetObjectTagging" refl)
        (Reads-by "GetObject" refl))

delete_object_action-Reads :
    (query : Assoc String String) → Reads false (delete_object_action query)
unfolding is_reading has_prefix delete_object_action
delete_object_action-Reads query =
    Reads-if (has_query_key query "tagging") (Reads-by "DeleteObjectTagging" refl) (
      Reads-if (has_query_key query "uploadId") (Reads-by "AbortMultipartUpload" refl)
        (Reads-by "DeleteObject" refl))

post_object_action-Reads : (query : Assoc String String) → Reads false (post_object_action query)
unfolding is_reading has_prefix post_object_action
post_object_action-Reads query =
    Reads-if (has_query_key query "uploads") (Reads-by "CreateMultipartUpload" refl) (
      Reads-if (has_query_key query "uploadId") (Reads-by "CompleteMultipartUpload" refl)
        (Reads-by "PostObject" refl))

put_object_action-Reads :
    (query : Assoc String String) (copy_source : String)
    → Reads false (put_object_action query copy_source)
unfolding is_reading has_prefix put_object_action
put_object_action-Reads query copy_source =
    let q = has_query_key query in
    Reads-if (q "acl") (Reads-by "PutObjectAcl" refl) (
      Reads-if (q "tagging") (Reads-by "PutObjectTagging" refl) (
        Reads-if (q "partNumber" || q "uploadId")
          (Reads-if (copy_source == "") (Reads-by "UploadPart" refl)
            (Reads-by "UploadPartCopy" refl))
          (Reads-if (copy_source == "") (Reads-by "PutObject" refl) (Reads-by "CopyObject" refl))))

-- The choice by the method that both kinds of action make.
Agrees-methods :
    (method get head put_ delete post : String)
    → Reads true get
    → Reads true head
    → Reads false put_
    → Reads false delete
    → Reads false post
    → Agrees method (
        if method == "GET"
        then get
        else if method == "HEAD"
        then head
        else if method == "PUT"
        then put_
        else if method == "DELETE"
        then delete
        else if method == "POST"
        then post
        else "")
unfolding is_safe
Agrees-methods method get head put_ delete post g h p d o = ground (
  arith,
  is_reading_of_Reads g,
  is_reading_of_Reads h,
  is_reading_of_Reads p,
  is_reading_of_Reads d,
  is_reading_of_Reads o,
  eq_iff method "GET",
  eq_iff method "HEAD",
)

bucket_action-Agrees :
    (method : String) (query : Assoc String String) → Agrees method (bucket_action method query)
unfolding bucket_action is_reading has_prefix
bucket_action-Agrees method query =
    Agrees-methods method _ _ _ _ _ (get_bucket_action-Reads query) (Reads-by "HeadBucket" refl)
      (put_bucket_action-Reads query) (delete_bucket_action-Reads query)
      (Reads-if (has_query_key query "delete") (Reads-by "DeleteObjects" refl)
        (Reads-by "PostObject" refl))

object_action-Agrees :
    (method : String) (query : Assoc String String) (copy_source : String)
    → Agrees method (object_action method query copy_source)
unfolding object_action is_reading has_prefix
object_action-Agrees method query copy_source =
    Agrees-methods method _ _ _ _ _ (get_object_action-Reads query) (Reads-by "HeadObject" refl)
      (put_object_action-Reads query copy_source) (delete_object_action-Reads query)
      (post_object_action-Reads query)

-- The action that is detected reads, by its name, just when the method of the request is GET or
-- HEAD, or there is no action: no request with another method is taken for a read, and no GET or
-- HEAD for a write.
pub detect_s3_action-Agrees :
    (route : S3Route)
    → (detect_s3_action route ≡ "") ⊎ (is_reading (detect_s3_action route) ≡ is_safe route.method)
unfolding detect_s3_action is_safe is_reading has_prefix
detect_s3_action-Agrees route = elim (Bool-cases (route.bucket == "")) [
  | inl no_bucket ↦ elim (Bool-cases (route.method == "GET")) [
    | inl get ↦ rw (no_bucket, get) (inr refl)
    | inr other ↦ rw (no_bucket, other) (inl refl)
  ]
  | inr bucket ↦ elim (Bool-cases (route.key == "")) [
    | inl no_key ↦ rw (bucket, no_key) (bucket_action-Agrees route.method route.query)
    | inr key ↦ rw (bucket, key) (object_action-Agrees route.method route.query route.copy_source)
  ]
]
