-- ===== src/Sqs/Batch.antt =====
-- Batches in internal/services/aws/sqs/handler.go: `validateBatchRequest` and the loops over the
-- entries.
pub mod Validation
use emulate.Prelude.{
  ℕ, zero, suc, ◌+◌, Bool, true, false, Option, none, some, List, [], ◌∷◌, ◌||◌, ◌&&◌, not, leb,
  ltb, all, contains, length, String, string_eq, nat_eq, ◌==◌, if◌then◌else◌,
}
use Prim.Native.Char.{Char, code}
use Prim.Native.String
use emulate.Prelude.Int.{ℤ, pos, int_less}
use emulate.Store.Value.{Fields}
use emulate.Protocols.Errors.{ErrorResponse}
use emulate.Sqs.Fields.{Platform, concat, byte_length, int_field, int_param}
use emulate.Sqs.Params.{Params, param, indexed_batch_entry_prefixes, parse_message_attributes_at}
use emulate.Sqs.Response.{BatchResultError, BatchValidationError, batch_error}
use emulate.Sqs.State.{Env, State}
use emulate.Sqs.Messages.{
  BatchSendResult, enqueue_message, delete_receipt_handle, change_receipt_visibility,
}

abbrev pub max_batch_entries : ℕ
max_batch_entries = 10

abbrev pub max_batch_entry_id_length : ℕ
max_batch_entry_id_length = 80

abbrev pub max_batch_request_bytes : ℕ
max_batch_request_bytes = 1048576

-- The characters that `validBatchEntryID` lets pass.
unfoldable pub valid_char : ℕ → Bool
valid_char c =
    (leb b'a' c && leb c b'z')
    || (leb b'A' c && leb c b'Z')
    || (leb b'0' c && leb c b'9')
    || c == b'-'
    || c == b'_'

unfoldable pub valid_chars : String → Bool
valid_chars String.[] = true
valid_chars (String.◌∷◌ c s) = valid_char (code c) && valid_chars s

-- `validBatchEntryID`
unfoldable pub valid_batch_entry_id : String → Bool
valid_batch_entry_id id = leb (byte_length id) max_batch_entry_id_length && valid_chars id

abbrev pub invalid_id : BatchValidationError
invalid_id = record {
  code = "InvalidBatchEntryId";
  message =
      "Batch entry IDs can contain only alphanumeric characters, hyphens, and underscores, and cannot exceed 80 characters.";
}

abbrev pub same_id : BatchValidationError
same_id = record {
  code = "BatchEntryIdsNotDistinct";
  message = "Two or more batch entries in the request have the same Id.";
}

-- The result of a check.
pub data Verdict : Type 0 where
  refused : BatchValidationError → Verdict
  accepted : List String → Verdict

-- The first refusal in the loop of `validateBatchRequest`, given the ids that were seen.
unfoldable pub refused_id : List String → List String → Option BatchValidationError
refused_id seen [] = none
refused_id seen (id ∷ ids) =
    let skipped = refused_id seen ids in
    let rest = refused_id (id ∷ seen) ids in
    if id == ""
    then skipped
    else if not (valid_batch_entry_id id)
    then some invalid_id
    else if contains id seen
    then some same_id
    else rest

-- params[prefix + name]
unfoldable pub entry_param : Params → String → String → String
entry_param params prefix name = param params (concat (prefix ∷ name ∷ []))

-- The parameter of each entry.
unfoldable pub entry_params : Params → String → List String → List String
entry_params params name [] = []
entry_params params name (prefix ∷ prefixes) =
    entry_param params prefix name ∷ entry_params params name prefixes

unfoldable pub total_bytes : List String → ℕ
total_bytes [] = 0
total_bytes (body ∷ bodies) = byte_length body + total_bytes bodies

-- `validateBatchRequest` of the entries. The sum is not taken where an entry is refused.
unfoldable pub validate_entries : Params → List String → Bool → Verdict
validate_entries params prefixes validate_payload_size =
    if length prefixes == 0
    then refused (record {
      code = "EmptyBatchRequest";
      message = "Batch requests must contain at least one entry.";
    })
    else if ltb max_batch_entries (length prefixes)
    then refused (record {
      code = "TooManyEntriesInBatchRequest";
      message = "Batch requests cannot contain more than 10 entries.";
    })
    else elim (refused_id [] (entry_params params ".Id" prefixes)) [
      | some error ↦ refused error
      | none ↦
          if validate_payload_size
            && ltb max_batch_request_bytes
                (total_bytes (entry_params params ".MessageBody" prefixes))
          then refused (record {
            code = "BatchRequestTooLong";
            message = "Batch requests cannot exceed 1048576 bytes.";
          })
          else accepted prefixes
    ]

-- `validateBatchRequest`
unfoldable pub validate_batch_request : Platform → Params → String → Bool → Verdict
validate_batch_request go params prefix validate_payload_size =
    validate_entries params (indexed_batch_entry_prefixes go params prefix) validate_payload_size

abbrev pub no_id : BatchResultError
no_id = batch_error "" "MissingParameter" "Each batch entry must contain an Id."

-- The entries that succeeded and those that failed.
abbrev pub Outcome : Type 0 → Type 0
Outcome A = List A × List BatchResultError

abbrev pub done_with : {A : Type 0} → A → Outcome A → Outcome A
done_with a (successful, failed) = (a ∷ successful, failed)

abbrev pub failed_with : {A : Type 0} → BatchResultError → Outcome A → Outcome A
failed_with e (successful, failed) = (successful, e ∷ failed)

-- What becomes of an entry.
pub data Step (A : Type 0) : Type 0 where
  done : A → Step A
  fault : BatchResultError → Step A

unfoldable pub add_step : {A : Type 0} → Step A → Outcome A → Outcome A
add_step (done a) outcome = done_with a outcome
add_step (fault e) outcome = failed_with e outcome

-- The loop over the entries.
unfoldable pub each_entry :
    {A : Type 0} → (String → State → Step A × State) → List String → State → Outcome A × State
each_entry step [] s = (([], []), s)
each_entry step (prefix ∷ prefixes) s =
    let now = step prefix s in
    let rest = each_entry step prefixes now.1 in (add_step now.0 rest.0, rest.1)

-- The end of an operation on a batch: the answer to a refusal, or to what became of the entries.
unfoldable pub batched :
    {A : Type 0}
    → Verdict
    → State
    → (BatchValidationError → ErrorResponse)
    → (List String → A × State)
    → (A → ErrorResponse)
    → ErrorResponse × State
batched (refused validation) s refuse entries answer = (refuse validation, s)
batched (accepted prefixes) s refuse entries answer =
    let outcome = entries prefixes in (answer outcome.0, outcome.1)

module _ (env : Env) where
  -- A round of `sendMessageBatchEntries`.
  unfoldable pub send_entry : Fields → Params → String → State → Step BatchSendResult × State
  send_entry queue params prefix s =
      let go = env.platform in
      let id = entry_param params prefix ".Id" in
      let message_body = entry_param params prefix ".MessageBody" in
      let limit = int_field go queue "max_message_size" in
      let sent =
        enqueue_message env queue message_body
          (parse_message_attributes_at go params (concat (prefix ∷ ".MessageAttribute" ∷ [])))
          (int_param go (entry_param params prefix ".DelaySeconds")
            (int_field go queue "delay_seconds"))
          s in
      if id == ""
      then (fault no_id, s)
      else if message_body == ""
      then (
        fault (batch_error id "MissingParameter" "Each batch entry must contain a MessageBody."),
        s,
      )
      else if int_less limit (pos (byte_length message_body))
      then (
        fault (
            batch_error id "InvalidParameterValue"
              (concat ("Message must be shorter than " ∷ go.itoa limit ∷ " bytes." ∷ []))),
        s,
      )
      else (done (record sent.0 { id = id }), sent.1)

  -- `sendMessageBatchEntries`
  unfoldable pub send_message_batch_entries :
      Fields → Params → List String → State → Outcome BatchSendResult × State
  send_message_batch_entries queue params = each_entry (send_entry queue params)

  abbrev no_receipt : String → BatchResultError
  no_receipt id = batch_error id "MissingParameter" "Each batch entry must contain a ReceiptHandle."

  -- A round of `deleteMessageBatchEntries`.
  unfoldable pub delete_entry : Fields → Params → String → State → Step String × State
  delete_entry queue params prefix s =
      let id = entry_param params prefix ".Id" in
      let receipt = entry_param params prefix ".ReceiptHandle" in
      if id == ""
      then (fault no_id, s)
      else if receipt == ""
      then (fault (no_receipt id), s)
      else (done id, (delete_receipt_handle env queue receipt s).1)

  -- `deleteMessageBatchEntries`
  unfoldable pub delete_message_batch_entries :
      Fields → Params → List String → State → Outcome String × State
  delete_message_batch_entries queue params = each_entry (delete_entry queue params)

  -- A round of `changeMessageVisibilityBatchEntries`.
  unfoldable pub change_entry : Fields → Params → String → State → Step String × State
  change_entry queue params prefix s =
      let go = env.platform in
      let id = entry_param params prefix ".Id" in
      let receipt = entry_param params prefix ".ReceiptHandle" in
      let timeout =
        int_param go (entry_param params prefix ".VisibilityTimeout")
          (int_field go queue "visibility_timeout") in
      let changed = change_receipt_visibility env queue receipt timeout s in
      if id == "" then (fault no_id, s) else if receipt == "" then (fault (no_receipt id), s) else (
        if changed.0
            then done id
            else fault
                (batch_error id "ReceiptHandleIsInvalid" "The input receipt handle is invalid."),
        changed.1,
      )

  -- `changeMessageVisibilityBatchEntries`
  unfoldable pub change_message_visibility_batch_entries :
      Fields → Params → List String → State → Outcome String × State
  change_message_visibility_batch_entries queue params = each_entry (change_entry queue params)
