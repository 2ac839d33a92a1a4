-- ===== src/Sqs/Messages.antt =====
-- Messages in internal/services/aws/sqs/handler.go: `enqueueMessage`, `reserveVisibleMessage`, the
-- loop of `receiveMessage`, `deleteReceiptHandle`, `changeReceiptVisibility` and the loop of
-- `purgeQueue`.
pub mod Records
pub mod Listed
pub mod Visibility
pub mod Removal
pub mod Receipts
use emulate.Prelude.{
  ℕ, zero, suc, ◌+◌, ◌/◌, ◌%◌, ◌^◌, Bool, true, false, Option, none, some, List, [], ◌∷◌, ◌++◌,
  length, String, string_eq, nat_eq, ◌==◌, if◌then◌else◌,
}
use emulate.Prelude.Int.{ℤ, pos, negsuc, int_eq, int_less, succ}
use emulate.Prelude.Int64.{after_seconds}
use emulate.Prelude.Text.{has_prefix}
use emulate.Store.Value.{Value, Fields, str, int, row, end, field, set_field, get_or_nil}
use emulate.Store.Collection.{Collection, insert, update, update_func, delete, find_by}
use emulate.Sqs.Fields.{
  Platform, bytes_of, sorted_record_keys, record_value, string_field, int_field, int64_field,
}
use emulate.Sqs.State.{Env, State, account_id}

-- `writeMD5LengthPrefixedBytes`: four bytes of length, the highest first, and the bytes.
unfoldable pub length_prefixed : List ℕ → List ℕ
length_prefixed bytes =
    let n = length bytes % 2 ^ 32 in
    (n / 16777216) ∷ (n / 65536 % 256) ∷ (n / 256 % 256) ∷ (n % 256) ∷ bytes

-- The loop of `messageAttributeBinaryBytes`.
unfoldable pub first_decoded : List (String → Option (List ℕ)) → String → List ℕ
first_decoded [] value = bytes_of value
first_decoded (decode ∷ decoders) value =
    let later = first_decoded decoders value in
    elim (decode value) [ none ↦ later | some bytes ↦ bytes ]

-- `batchSendResult`
pub record BatchSendResult : Type 0 where
  pub id : String
  pub message_id : String
  pub body_md5 : String
  pub attributes_md5 : String

module _ (go : Platform) where
  -- `messageAttributeBinaryBytes`
  unfoldable pub binary_bytes : String → List ℕ
  binary_bytes value = if value == "" then [] else first_decoded go.base64_decoders value

  -- A data type that is empty is String.
  unfoldable pub data_type : Fields → String
  data_type value =
      let kind = string_field go value "DataType" in if kind == "" then "String" else kind

  -- What a round of `md5OfMessageAttributes` writes.
  unfoldable pub attribute_bytes : String → Fields → List ℕ
  attribute_bytes name value =
      let kind = data_type value in
      length_prefixed (bytes_of name)
      ++ (length_prefixed (bytes_of kind)
          ++ (if has_prefix kind "Binary"
              then 2 ∷ length_prefixed (binary_bytes (string_field go value "BinaryValue"))
              else 1 ∷ length_prefixed (bytes_of (string_field go value "StringValue"))))

  unfoldable pub attributes_bytes : Fields → List String → List ℕ
  attributes_bytes attrs [] = []
  attributes_bytes attrs (name ∷ names) =
      attribute_bytes name (record_value (get_or_nil name attrs)) ++ attributes_bytes attrs names

  -- `md5OfMessageAttributes`
  unfoldable pub md5_of_message_attributes : Fields → String
  md5_of_message_attributes end = ""
  md5_of_message_attributes (field k v fs) =
      let attrs = field k v fs in go.md5_sum_hex (attributes_bytes attrs (sorted_record_keys attrs))

  -- `md5Hex`
  unfoldable pub md5_hex : String → String
  md5_hex value = go.md5_sum_hex (bytes_of value)

-- The collection and the record after an update that may fail.
unfoldable pub updated : Option (Collection × Fields) → State → Option Fields × State
updated none s = (none, s)
updated (some (c, out)) s = (some out, record s { messages = c })

-- Whether an update was made, and the state after it.
unfoldable pub noted : Option (Collection × Fields) → State → Bool × State
noted none s = (false, s)
noted (some (c, out)) s = (true, record s { messages = c })

-- A number that is not negative.
unfoldable pub count_of : ℤ → ℕ
count_of (pos n) = n
count_of (negsuc n) = 0

-- Both clamps of `receiveMessage`, with the number as a count.
unfoldable pub clamped : ℤ → ℕ
clamped n = if int_less (pos 10) n then 10 else if int_less n (pos 1) then 1 else count_of n

module _ (env : Env) where
  -- The record of a new message in `enqueueMessage`.
  unfoldable pub new_message : Fields → String → Fields → ℤ → ℕ → Fields
  new_message queue body attributes delay draw =
      let now = env.sources.now_millis draw in
      field "queue_name" (str (string_field env.platform queue "queue_name")) (
        field "message_id" (str (env.sources.message_id draw)) (
          field "receipt_handle" (str (env.sources.receipt_handle draw)) (
            field "body" (str body) (
              field "md5_of_body" (str (md5_hex env.platform body)) (
                field "md5_of_message_attributes"
                  (str (md5_of_message_attributes env.platform attributes))
                  (field "first_receive_timestamp" (int (pos 0)) (
                    field "attributes"
                      (row (
                        field "SentTimestamp" (str (env.platform.itoa now)) (
                          field "ApproximateReceiveCount" (str "0") (
                            field "ApproximateFirstReceiveTimestamp" (str "")
                              (field "SenderId" (str (account_id env)) end)))))
                      (field "message_attributes" (row attributes) (
                        field "visible_after" (int (after_seconds now delay)) (
                          field "sent_timestamp" (int now)
                            (field "receive_count" (int (pos 0)) end)))))))))))

  -- `enqueueMessage`
  unfoldable pub enqueue_message : Fields → String → Fields → ℤ → State → BatchSendResult × State
  enqueue_message queue body attributes delay s = (
    record {
      id = "";
      message_id = env.sources.message_id s.tick;
      body_md5 = md5_hex env.platform body;
      attributes_md5 = md5_of_message_attributes env.platform attributes;
    },
    record s {
      messages =
          (insert env.formats (env.sources.timestamp s.tick) s.messages
            (new_message queue body attributes delay s.tick)).0;
      tick = suc s.tick;
    },
  )

  -- The messages of a queue: FindBy("queue_name", stringField(queue, "queue_name")).
  unfoldable pub messages_of : Fields → State → List Fields
  messages_of queue s =
      find_by env.formats s.messages "queue_name"
        (str (string_field env.platform queue "queue_name"))

  -- The patch of `reserveVisibleMessage`: none where the message is not visible yet.
  unfoldable pub reservation : ℤ → ℤ → String → Fields → Option Fields
  reservation now timeout receipt current =
      let patch = field "receipt_handle" (str receipt) (
        field "visible_after" (int (after_seconds now timeout)) (
          field "receive_count" (int (succ (int_field env.platform current "receive_count")))
            end)) in
      if int_less now (int64_field env.platform current "visible_after")
      then none
      else if int64_field env.platform current "first_receive_timestamp" == pos 0
      then some (set_field "first_receive_timestamp" (int now) patch)
      else some patch

  -- `reserveVisibleMessage`
  unfoldable pub reserve_visible_message : Fields → ℤ → ℤ → State → Option Fields × State
  reserve_visible_message message now timeout s =
      updated
        (update_func env.formats (env.sources.timestamp s.tick) s.messages
          (int_field env.platform message "id")
          (some (reservation now timeout (env.sources.receipt_handle s.tick))))
        (record s { tick = suc s.tick })

  -- The loop of `receiveMessage`, with the number of messages that may still be taken. A round is
  -- skipped where the message that was found is not visible, or could not be reserved.
  unfoldable pub take_visible : ℤ → ℤ → ℕ → List Fields → State → List Fields × State
  take_visible now timeout room [] s = ([], s)
  take_visible now timeout zero (message ∷ rest) s = ([], s)
  take_visible now timeout (suc room) (message ∷ rest) s =
      let reserved = reserve_visible_message message now timeout s in
      if int_less now (int64_field env.platform message "visible_after")
      then take_visible now timeout (suc room) rest s
      else elim reserved.0 [
        | none ↦ take_visible now timeout (suc room) rest reserved.1
        | some out ↦
            let more = take_visible now timeout room rest reserved.1 in (out ∷ more.0, more.1)
      ]

  -- The loop of `purgeQueue`.
  unfoldable pub delete_each : List Fields → Collection → Collection
  delete_each [] c = c
  delete_each (message ∷ rest) c =
      delete_each rest (delete env.formats c (int_field env.platform message "id")).0

  -- The first of the messages with the receipt handle.
  unfoldable pub with_receipt : String → List Fields → Option Fields
  with_receipt receipt [] = none
  with_receipt receipt (message ∷ rest) =
      let later = with_receipt receipt rest in
      if string_field env.platform message "receipt_handle" == receipt then some message else later

  -- `deleteReceiptHandle`
  unfoldable pub delete_receipt_handle : Fields → String → State → Bool × State
  delete_receipt_handle queue receipt s = elim (with_receipt receipt (messages_of queue s)) [
    | none ↦ (false, s)
    | some message ↦
        let deleted = delete env.formats s.messages (int_field env.platform message "id") in
        (deleted.1, record s { messages = deleted.0 })
  ]

  -- `changeReceiptVisibility`
  unfoldable pub change_receipt_visibility : Fields → String → ℤ → State → Bool × State
  change_receipt_visibility queue receipt timeout s =
      let now = env.sources.now_millis s.tick in
      let drawn = record s { tick = suc s.tick } in
      elim (with_receipt receipt (messages_of queue s)) [
        | none ↦ (false, drawn)
        | some message ↦
            noted
              (update env.formats (env.sources.timestamp s.tick) s.messages
                (int_field env.platform message "id")
                (field "visible_after" (int (after_seconds now timeout)) end))
              drawn
      ]

  -- The messages that `receiveMessage` answers with: at most `limit`, between 1 and 10 of them.
  unfoldable pub receive : Fields → ℤ → ℤ → State → List Fields × State
  receive queue limit timeout s =
      take_visible (env.sources.now_millis s.tick) timeout (clamped limit) (messages_of queue s)
        (record s { tick = suc s.tick })
