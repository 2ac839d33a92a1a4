-- ===== src/Sqs/Delivery.antt =====
-- The operations on messages in internal/services/aws/sqs/handler.go, for the query protocol.
pub mod Rows
pub mod Json
pub mod Taken
use emulate.Prelude.{
  ℕ, suc, Bool, true, false, Option, none, some, List, [], ◌∷◌, String, string_eq, ◌==◌,
  if◌then◌else◌,
}
use emulate.Prelude.Int.{ℤ, pos, int_less}
use emulate.Prelude.Text.{trim_right}
use emulate.Store.Value.{Fields}
use emulate.Protocols.Errors.{ErrorResponse}
use emulate.Sqs.Fields.{concat, xml_escape, byte_length, int_field, int_param}
use emulate.Sqs.Params.{Params, param, parse_message_attributes_at}
use emulate.Sqs.State.{Env, State}
use emulate.Sqs.Response.{
  BatchValidationError, plain_answer, answer, query_error, queue_not_found, batch_query_error,
}
use emulate.Sqs.Response.Results.{between, batch_send_xml, batch_delete_xml, batch_visibility_xml}
use emulate.Sqs.Messages.{
  BatchSendResult, enqueue_message, receive, delete_receipt_handle, change_receipt_visibility,
}
use emulate.Sqs.Batch.{
  batched, validate_batch_request, send_message_batch_entries, delete_message_batch_entries,
  change_message_visibility_batch_entries,
}
use emulate.Sqs.Queues.{with_queue}
use emulate.Sqs.Delivery.Rows.{message_rows}

module _ (env : Env) where
  -- `messageDelaySeconds`
  unfoldable pub message_delay_seconds : Params → Fields → ℤ
  message_delay_seconds params queue =
      int_param env.platform (param params "DelaySeconds")
        (int_field env.platform queue "delay_seconds")

  -- The message of `sendMessage` is stored, its attributes being those of `parseMessageAttributes`.
  unfoldable pub sent_message : Params → Fields → State → BatchSendResult × State
  sent_message params queue =
      enqueue_message env queue (param params "MessageBody")
        (parse_message_attributes_at env.platform params "MessageAttribute")
        (message_delay_seconds params queue)

  -- Whether the body is longer than the queue allows.
  unfoldable pub too_long : Params → Fields → Bool
  too_long params queue =
      int_less (int_field env.platform queue "max_message_size")
        (pos (byte_length (param params "MessageBody")))

  -- The text of the error for a body that is too long.
  unfoldable pub too_long_message : Fields → String
  too_long_message queue = concat (
      "One or more parameters are invalid. Reason: Message must be shorter than "
      ∷ env.platform.itoa (int_field env.platform queue "max_message_size")
      ∷ " bytes."
      ∷ [])

  -- `sendMessage`
  unfoldable pub send_message : Params → String → State → ErrorResponse × State
  send_message params request_id = with_queue env (queue_not_found request_id) params (λ queue s.
      let result = sent_message params queue s in
      if param params "MessageBody" == ""
      then (
        query_error "MissingParameter" "The request must contain the parameter MessageBody." 400
            request_id,
        s,
      )
      else if too_long params queue
      then (query_error "InvalidParameterValue" (too_long_message queue) 400 request_id, s)
      else (
        answer "SendMessage"
            (concat (
              "    <MessageId>"
              ∷ xml_escape result.0.message_id
              ∷ "</MessageId>\n    <MD5OfMessageBody>"
              ∷ result.0.body_md5
              ∷ "</MD5OfMessageBody>"
              ∷ between "\n    <MD5OfMessageAttributes>" "</MD5OfMessageAttributes>"
                  result.0.attributes_md5
              ∷ []))
            request_id,
        result.1,
      ))

  -- The reservation of `receiveMessage`, with the parameters read.
  unfoldable pub received : Params → Fields → State → List Fields × State
  received params queue =
      receive env queue (int_param env.platform (param params "MaxNumberOfMessages") (pos 1)) (
        int_param env.platform (param params "VisibilityTimeout")
          (int_field env.platform queue "visibility_timeout"))

  -- `receiveMessage`
  unfoldable pub receive_message : Params → String → State → ErrorResponse × State
  receive_message params request_id = with_queue env (queue_not_found request_id) params (λ queue s.
      let batch = received params queue s in
      (
        answer "ReceiveMessage" (trim_right 10 (message_rows env.platform params batch.0))
            request_id,
        batch.1,
      ))

  -- `deleteMessage`
  unfoldable pub delete_message : Params → String → State → ErrorResponse × State
  delete_message params request_id = with_queue env (queue_not_found request_id) params (λ queue s.
      (
        plain_answer "DeleteMessage" request_id,
        (delete_receipt_handle env queue (param params "ReceiptHandle") s).1,
      ))

  -- The change of `changeMessageVisibility`, with the parameters read.
  unfoldable pub visibility_changed : Params → Fields → State → Bool × State
  visibility_changed params queue =
      change_receipt_visibility env queue (param params "ReceiptHandle") (
        int_param env.platform (param params "VisibilityTimeout")
          (int_field env.platform queue "visibility_timeout"))

  -- `changeMessageVisibility`
  unfoldable pub change_message_visibility : Params → String → State → ErrorResponse × State
  change_message_visibility params request_id =
      with_queue env (queue_not_found request_id) params (λ queue s.
        let changed = visibility_changed params queue s in
        if param params "ReceiptHandle" == ""
        then (
          query_error "MissingParameter" "The request must contain the parameter ReceiptHandle." 400
              request_id,
          s,
        )
        else (
          if changed.0
              then plain_answer "ChangeMessageVisibility" request_id
              else query_error "ReceiptHandleIsInvalid" "The input receipt handle is invalid." 400
                  request_id,
          changed.1,
        ))

  -- `sendMessageBatch`
  unfoldable pub send_message_batch : Params → String → State → ErrorResponse × State
  send_message_batch params request_id =
      with_queue env (queue_not_found request_id) params (λ queue s.
        batched (validate_batch_request env.platform params "SendMessageBatchRequestEntry" true) s
          (λ validation. batch_query_error validation request_id)
          (λ prefixes. send_message_batch_entries env queue params prefixes s)
          (λ outcome. answer "SendMessageBatch" (batch_send_xml outcome.0 outcome.1) request_id))

  -- `deleteMessageBatch`
  unfoldable pub delete_message_batch : Params → String → State → ErrorResponse × State
  delete_message_batch params request_id =
      with_queue env (queue_not_found request_id) params (λ queue s.
        batched (validate_batch_request env.platform params "DeleteMessageBatchRequestEntry" false)
          s (λ validation. batch_query_error validation request_id)
          (λ prefixes. delete_message_batch_entries env queue params prefixes s)
          (λ outcome.
            answer "DeleteMessageBatch" (batch_delete_xml outcome.0 outcome.1) request_id))

  -- `changeMessageVisibilityBatch`
  unfoldable pub change_message_visibility_batch : Params → String → State → ErrorResponse × State
  change_message_visibility_batch params request_id =
      with_queue env (queue_not_found request_id) params (λ queue s.
        batched
          (validate_batch_request env.platform params "ChangeMessageVisibilityBatchRequestEntry"
            false)
          s (λ validation. batch_query_error validation request_id)
          (λ prefixes. change_message_visibility_batch_entries env queue params prefixes s)
          (λ outcome.
            answer "ChangeMessageVisibilityBatch" (batch_visibility_xml outcome.0 outcome.1)
              request_id))
