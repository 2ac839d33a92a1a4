-- ===== src/Sqs/Delivery/Json.antt =====
-- The operations on messages in internal/services/aws/sqs/handler.go, for the JSON protocol.
use emulate.Prelude.{
  ℕ, zero, suc, true, false, none, some, List, [], ◌∷◌, string_eq, ◌==◌, if◌then◌else◌,
}
use emulate.Prelude.Int.{ℤ, pos, int_less}
use emulate.Store.Value.{Fields, Rows, str, objects, end, field, no_rows, next_row, set_field}
use emulate.Protocols.Errors.{ErrorResponse}
use emulate.Sqs.Fields.{concat, byte_length, int_field, int64_field, int_param}
use emulate.Sqs.Params.{Params, param, parse_message_attributes_at}
use emulate.Sqs.State.{Env, State}
use emulate.Sqs.Response.{json_response, json_error, queue_not_found_json, batch_json_error}
use emulate.Sqs.Response.Results.{send_batch_json, batch_success_ids_json, batch_failures_json}
use emulate.Sqs.Messages.{
  BatchSendResult, count_of, enqueue_message, messages_of, reserve_visible_message,
  delete_receipt_handle, change_receipt_visibility,
}
use emulate.Sqs.Batch.{
  batched, validate_batch_request, send_message_batch_entries, delete_message_batch_entries,
  change_message_visibility_batch_entries,
}
use emulate.Sqs.Queues.{with_queue}
use emulate.Sqs.Delivery.{message_delay_seconds}
use emulate.Sqs.Delivery.Rows.{message_item}

-- The answer of `sendMessageJSON`.
unfoldable pub sent_json : BatchSendResult → Fields
sent_json result =
    let response =
      field "MD5OfMessageBody" (str result.body_md5)
        (field "MessageId" (str result.message_id) end) in
    if result.attributes_md5 == ""
    then response
    else set_field "MD5OfMessageAttributes" (str result.attributes_md5) response

-- The answer to a batch.
unfoldable pub batch_json : Rows → Rows → ErrorResponse
batch_json successful failed =
    json_response 200
      (field "Successful" (objects successful) (field "Failed" (objects failed) end))

module _ (env : Env) where
  -- `sendMessageJSON`
  unfoldable pub send_message_json : Params → State → ErrorResponse × State
  send_message_json params = with_queue env queue_not_found_json params (λ queue s.
      let size_limit = int_field env.platform queue "max_message_size" in
      let result =
        enqueue_message env queue (param params "MessageBody")
          (parse_message_attributes_at env.platform params "MessageAttribute")
          (message_delay_seconds env params queue) s in
      if param params "MessageBody" == ""
      then (json_error "MissingParameter" "The request must contain the parameter MessageBody.", s)
      else if int_less size_limit (pos (byte_length (param params "MessageBody")))
      then (
        json_error "InvalidParameterValue" (
            concat (
              "One or more parameters are invalid. Reason: Message must be shorter than "
              ∷ env.platform.itoa size_limit
              ∷ " bytes."
              ∷ [])),
        s,
      )
      else (json_response 200 (sent_json result.0), result.1))

  -- The loop of `receiveMessageJSON`, with the number of messages that may still be taken. Each
  -- message that is reserved becomes an item of the answer at once.
  unfoldable pub take_items : Params → ℤ → ℤ → ℕ → List Fields → State → Rows × State
  take_items params now timeout room [] s = (no_rows, s)
  take_items params now timeout zero (message ∷ rest) s = (no_rows, s)
  take_items params now timeout (suc room) (message ∷ rest) s =
      let reserved = reserve_visible_message env message now timeout s in
      if int_less now (int64_field env.platform message "visible_after")
      then take_items params now timeout (suc room) rest s
      else elim reserved.0 [
        | none ↦ take_items params now timeout (suc room) rest reserved.1
        | some out ↦
            let more = take_items params now timeout room rest reserved.1 in
            (next_row (message_item env.platform params out) more.0, more.1)
      ]

  -- `receiveMessageJSON`, with both clamps of the number of messages
  unfoldable pub receive_message_json : Params → State → ErrorResponse × State
  receive_message_json params = with_queue env queue_not_found_json params (λ queue s.
      let limit = int_param env.platform (param params "MaxNumberOfMessages") (pos 1) in
      let room =
        if int_less (pos 10) limit
        then 10
        else if int_less limit (pos 1)
        then 1
        else count_of limit in
      let timeout =
        int_param env.platform (param params "VisibilityTimeout")
          (int_field env.platform queue "visibility_timeout") in
      let taken =
        take_items params (env.sources.now_millis s.tick) timeout room (messages_of env queue s)
          (record s { tick = suc s.tick }) in
      (json_response 200 (field "Messages" (objects taken.0) end), taken.1))

  -- `deleteMessageJSON`
  unfoldable pub delete_message_json : Params → State → ErrorResponse × State
  delete_message_json params = with_queue env queue_not_found_json params (λ queue s.
      (json_response 200 end, (delete_receipt_handle env queue (param params "ReceiptHandle") s).1))

  -- `changeMessageVisibilityJSON`
  unfoldable pub change_message_visibility_json : Params → State → ErrorResponse × State
  change_message_visibility_json params = with_queue env queue_not_found_json params (λ queue s.
      let changed =
        change_receipt_visibility env queue (param params "ReceiptHandle")
          (int_param env.platform (param params "VisibilityTimeout")
            (int_field env.platform queue "visibility_timeout"))
          s in
      if param params "ReceiptHandle" == ""
      then (
        json_error "MissingParameter" "The request must contain the parameter ReceiptHandle.",
        s,
      )
      else (
        if changed.0
            then json_response 200 end
            else json_error "ReceiptHandleIsInvalid" "The input receipt handle is invalid.",
        changed.1,
      ))

  -- `sendMessageBatchJSON`
  unfoldable pub send_message_batch_json : Params → State → ErrorResponse × State
  send_message_batch_json params = with_queue env queue_not_found_json params (λ queue s.
      batched (validate_batch_request env.platform params "SendMessageBatchRequestEntry" true) s
        batch_json_error (λ prefixes. send_message_batch_entries env queue params prefixes s)
        (λ outcome. batch_json (send_batch_json outcome.0) (batch_failures_json outcome.1)))

  -- `deleteMessageBatchJSON`
  unfoldable pub delete_message_batch_json : Params → State → ErrorResponse × State
  delete_message_batch_json params = with_queue env queue_not_found_json params (λ queue s.
      batched (validate_batch_request env.platform params "DeleteMessageBatchRequestEntry" false) s
        batch_json_error (λ prefixes. delete_message_batch_entries env queue params prefixes s)
        (λ outcome. batch_json (batch_success_ids_json outcome.0) (batch_failures_json outcome.1)))

  -- `changeMessageVisibilityBatchJSON`
  unfoldable pub change_message_visibility_batch_json : Params → State → ErrorResponse × State
  change_message_visibility_batch_json params =
      with_queue env queue_not_found_json params (λ queue s.
        batched
          (validate_batch_request env.platform params "ChangeMessageVisibilityBatchRequestEntry"
            false)
          s batch_json_error
          (λ prefixes. change_message_visibility_batch_entries env queue params prefixes s)
          (λ outcome.
            batch_json (batch_success_ids_json outcome.0) (batch_failures_json outcome.1)))
