-- ===== src/Sqs/Batch/Validation.antt =====
-- What `validateBatchRequest` of internal/services/aws/sqs/handler.go accepts.
use emulate.Prelude.{
  ◌≡◌, ◌↔◌, refl, inl, inr, Bool, true, false, not, ◌&&◌, none, List, [], ◌∷◌, All, filter,
  contains, length, ◌≤◌, nat_eq, arith, ltb, Option-cases, Bool-cases, String, string_eq, ◌==◌,
}
use text.Mathlib.TextEquality.{eq_iff}
use emulate.Prelude.Sort.{IsDistinct}
use emulate.Sqs.Fields.{Platform}
use emulate.Sqs.Params.{Params, indexed_batch_entry_prefixes}
use emulate.Sqs.Batch.{
  accepted, refused_id, valid_batch_entry_id, validate_entries, validate_batch_request,
  entry_params, total_bytes, max_batch_entries, max_batch_request_bytes,
}

-- The text is not empty.
abbrev pub is_given : String → Bool
is_given id = not (id == "")

-- The ids that are given are allowed, and none is twice there or among those seen.
abbrev pub IsAllowed : List String → List String → Type 0
IsAllowed seen ids =
    All (λ id. valid_batch_entry_id id && not (contains id seen) ≡ true) (filter is_given ids)
    × IsDistinct (filter is_given ids)

fresh_id :
    (id : String) (seen l : List String)
    → All (λ x. valid_batch_entry_id x && not (contains x (id ∷ seen)) ≡ true) l
    → (contains id l ≡ false) × All (λ x. valid_batch_entry_id x && not (contains x seen) ≡ true) l
unfolding contains
fresh_id id seen [] h = (refl, tt)
fresh_id id seen (x ∷ l) (here, there) =
    let (fresh, later) = fresh_id id seen l there in
    (ground (arith, eq_iff id x, eq_iff x id), (ground arith, later))

seen_id :
    (id : String) (seen l : List String)
    → contains id l ≡ false
    → All (λ x. valid_batch_entry_id x && not (contains x seen) ≡ true) l
    → All (λ x. valid_batch_entry_id x && not (contains x (id ∷ seen)) ≡ true) l
unfolding contains
seen_id id seen [] fresh h = tt
seen_id id seen (x ∷ l) fresh (here, there) =
    (ground (arith, eq_iff id x, eq_iff x id), seen_id id seen l (ground arith) there)

refused_id-IsAllowed : (seen ids : List String) → (refused_id seen ids ≡ none) ↔ IsAllowed seen ids
unfolding refused_id filter
refused_id-IsAllowed seen [] = (λ h. (tt, tt), λ h. refl)
refused_id-IsAllowed seen (id ∷ ids) =
    let (skip_to, skip_from) = refused_id-IsAllowed seen ids in
    let (rest_to, rest_from) = refused_id-IsAllowed (id ∷ seen) ids in
    elim (Bool-cases (id == "")) [
      | inl empty ↦ rw (empty, refused_id, filter) (skip_to, skip_from)
      | inr given ↦ elim (Bool-cases (valid_batch_entry_id id)) [
        | inr invalid ↦ rw (given, invalid, refused_id, filter) (λ h. cc, λ h. let no = h.0.0 in cc)
        | inl valid ↦ elim (Bool-cases (contains id seen)) [
          | inl twice ↦
              rw (given, valid, twice, refused_id, filter) (λ h. cc, λ h. let no = h.0.0 in cc)
          | inr new ↦
              rw (given, valid, new, refused_id, filter)
                (
                  λ h.
                      let (ok, distinct) = rest_to h in
                      let (fresh, later) = fresh_id id seen (filter is_given ids) ok in
                      ((ground arith, later), (fresh, distinct)),
                  λ ((here, there), (fresh, distinct)).
                      rest_from (seen_id id seen (filter is_given ids) fresh there, distinct),
                )
        ]
      ]
    ]

-- The sizes that `validateBatchRequest` allows.
abbrev pub FitsBatch : Params → List String → Bool → Type 0
FitsBatch params prefixes validate_payload_size =
    (1 ≤ length prefixes)
    × (length prefixes ≤ max_batch_entries)
    × ((validate_payload_size
          && ltb max_batch_request_bytes
              (total_bytes (entry_params params ".MessageBody" prefixes)))
        ≡ false)

-- A batch is accepted exactly where it has one to ten entries, each id that is given consists of at
-- most 80 bytes of the allowed characters, no two of these ids are the same, and the bodies, where
-- they count, have at most 1048576 bytes together.
pub validate_batch_request-accepted :
    (go : Platform) (params : Params) (prefix : String) (validate_payload_size : Bool)
    → (validate_batch_request go params prefix validate_payload_size
        ≡ accepted (indexed_batch_entry_prefixes go params prefix))
      ↔ FitsBatch params (indexed_batch_entry_prefixes go params prefix) validate_payload_size
        × IsAllowed [] (entry_params params ".Id" (indexed_batch_entry_prefixes go params prefix))
unfolding validate_batch_request validate_entries
validate_batch_request-accepted go params prefix flag =
    let prefixes = indexed_batch_entry_prefixes go params prefix in
    let (to, from) = refused_id-IsAllowed [] (entry_params params ".Id" prefixes) in
    elim (Bool-cases (length prefixes == 0)) [
      | inl empty ↦
          rw (empty, validate_batch_request, validate_entries) (λ h. cc, λ h. ground arith)
      | inr some_entry ↦ elim (Bool-cases (ltb max_batch_entries (length prefixes))) [
        | inl many ↦ rw (some_entry, many, validate_entries) (λ h. cc, λ h. ground arith)
        | inr few ↦ elim (Option-cases (refused_id [] (entry_params params ".Id" prefixes))) [
          | inr (error, refusal) ↦
              rw (some_entry, few, refusal, validate_entries)
                (λ h. cc, λ h. let no = from h.1 in cc)
          | inl allowed ↦
              elim (Bool-cases (
                flag
                && ltb max_batch_request_bytes
                    (total_bytes (entry_params params ".MessageBody" prefixes)))) [
                      | inl long ↦
                          rw (some_entry, few, allowed, long, validate_entries)
                            (λ h. cc, λ h. let (_, _, short) = h.0 in cc)
                      | inr fits ↦ (
                        λ h. ((ground arith, ground arith, fits), to allowed),
                        λ h. rw (some_entry, few, allowed, fits, validate_entries) refl,
                      )
                    ]
        ]
      ]
    ]
