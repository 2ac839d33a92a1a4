-- ===== src/S3/Addressing.antt =====
-- The bucket and the key that a request names.
use emulate.Prelude.{
  ◌≡◌, refl, sym, ap, ◌∙◌, inl, inr, true, false, Option, none, some, List, [], ◌∷◌, ◌++◌, String,
  string_eq, Bool-cases, Option-cases, All,
}
use emulate.Prelude.Split.{split, join, join-split}
use emulate.S3.{is_s3_label, labels_before_s3, bucket_of_labels, virtual_host_bucket, virtual_host}

labels_before_s3-none :
    (labels : List String)
    → labels_before_s3 labels ≡ none
    → All (λ l. is_s3_label l ≡ false) labels
unfolding labels_before_s3
labels_before_s3-none [] e = tt
labels_before_s3-none (l ∷ ls) e = elim (Option-cases (labels_before_s3 ls)) [
  | inl later ↦ elim (Bool-cases (is_s3_label l)) [
    | inl hit ↦ cc (rw (later, hit, labels_before_s3) at e)
    | inr miss ↦ (miss, labels_before_s3-none ls later)
  ]
  | inr (before, later) ↦ cc (rw (later, labels_before_s3) at e)
]

labels_before_s3-split :
    (labels before : List String)
    → labels_before_s3 labels ≡ some before
    → (label : String) × (after : List String) × (labels ≡ before ++ label ∷ after)
      × (is_s3_label label ≡ true)
      × All (λ l. is_s3_label l ≡ false) after
unfolding labels_before_s3
labels_before_s3-split [] before e = cc
labels_before_s3-split (l ∷ ls) before e = elim (Option-cases (labels_before_s3 ls)) [
  | inl later ↦ elim (Bool-cases (is_s3_label l)) [
    | inl hit ↦
        let front : [] ≡ before = cc (rw (later, hit, labels_before_s3) at e) in
        (l, ls, ap (λ f. f ++ l ∷ ls) front, hit, labels_before_s3-none ls later)
    | inr miss ↦ cc (rw (later, miss, labels_before_s3) at e)
  ]
  | inr (rest, later) ↦
      let (label, after, same, hit, others) = labels_before_s3-split ls rest later in
      let front : l ∷ rest ≡ before = cc (rw (later, labels_before_s3) at e) in
      (label, after, ap (λ t. l ∷ t) same ∙ ap (λ f. f ++ label ∷ after) front, hit, others)
]

bucket_of_labels-some :
    (found : Option (List String)) (bucket : String)
    → bucket_of_labels found ≡ (bucket, virtual_host)
    → (first : String) × (more : List String) × (found ≡ some (first ∷ more))
      × (bucket ≡ join "." (first ∷ more))
unfolding bucket_of_labels
bucket_of_labels-some none bucket e = cc
bucket_of_labels-some (some []) bucket e = cc
bucket_of_labels-some (some (l ∷ ls)) bucket e = (l, ls, refl, cc)

-- Where the host names a bucket, the host is that bucket, which is one label at least, a dot, a
-- label that names the service and labels that do not.
pub virtual_host_bucket-host :
    (host bucket : String)
    → virtual_host_bucket host ≡ (bucket, virtual_host)
    → (label first : String) × (more after : List String) × (bucket ≡ join "." (first ∷ more))
      × (host ≡ join "." (first ∷ more ++ label ∷ after))
      × (is_s3_label label ≡ true)
      × All (λ l. is_s3_label l ≡ false) after
unfolding virtual_host_bucket
virtual_host_bucket-host host bucket e =
    let (first, more, found, joined) =
      bucket_of_labels-some (labels_before_s3 (split b'.' host)) bucket e in
    let (label, after, same, hit, others) =
      labels_before_s3-split (split b'.' host) (first ∷ more) found in
    (label, first, more, after, joined, sym (join-split "." host) ∙ ap (join ".") same, hit, others)
