-- ===== src/Sqs/Handler/Operations.antt =====
-- Each operation of internal/services/aws/sqs/handler.go keeps both collections valid.
use emulate.Prelude.{suc, if◌then◌else◌, Bool, true, false, List, String, string_eq, ◌==◌}
use emulate.Prelude.Int.{pos, int_less}
use emulate.Store.Value.{Fields}
use emulate.Protocols.Errors.{ErrorResponse}
use emulate.Sqs.Fields.{byte_length, int_field}
use emulate.Sqs.Params.{Params, param}
use emulate.Sqs.State.{Env, State}
use emulate.Sqs.Response.{queue_not_found, queue_not_found_json, BatchValidationError}
use emulate.Sqs.Messages.{messages_of}
use emulate.Sqs.Delivery.Taken.{take_items-eq}
use emulate.Sqs.Messages.Records.{
  IsSound, enqueue_message-IsSound, receive-IsSound, take_visible-IsSound,
  delete_receipt_handle-IsSound, change_receipt_visibility-IsSound,
}
use emulate.Sqs.Batch.{
  Verdict, batched, send_entry, delete_entry, change_entry, entry_param, refused, accepted,
  send_message_batch_entries, delete_message_batch_entries, change_message_visibility_batch_entries,
}
use emulate.Sqs.Delivery.{
  sent_message, received, visibility_changed, too_long, send_message, send_message_batch,
  receive_message, delete_message, delete_message_batch, change_message_visibility,
  change_message_visibility_batch,
}
use emulate.Sqs.Delivery.Json.{
  send_message_json, send_message_batch_json, receive_message_json, delete_message_json,
  delete_message_batch_json, change_message_visibility_json, change_message_visibility_batch_json,
}
use emulate.Sqs.Handler.Invariant.{Keeps, with_queue-Keeps, each_entry-Keeps}

-- One of two answers with the states that they leave.
if-IsSound :
    (env : Env) {A : Type 0} (a : Bool) (x y : A × State)
    → IsSound env x.1
    → IsSound env y.1
    → IsSound env (if◌then◌else◌ {A = A × State} a x y).1
if-IsSound env true x y h k = h
if-IsSound env false x y h k = k

module _ (env : Env) where
  sent_message-Keeps :
      (params : Params) (queue : Fields) → Keeps env (sent_message env params queue)
  unfolding sent_message
  sent_message-Keeps params queue s h = enqueue_message-IsSound env queue _ _ _ s h

  pub send_message-Keeps :
      (params : Params) (request_id : String) → Keeps env (send_message env params request_id)
  unfolding send_message
  send_message-Keeps params request_id =
      with_queue-Keeps env (queue_not_found request_id) params _ (λ queue s h.
        if-IsSound env (param params "MessageBody" == "") _ _ h
          (if-IsSound env (too_long env params queue) _ _ h (sent_message-Keeps params queue s h)))

  pub send_message_json-Keeps : (params : Params) → Keeps env (send_message_json env params)
  unfolding send_message_json
  send_message_json-Keeps params = with_queue-Keeps env queue_not_found_json params _ (λ queue s h.
      if-IsSound env (param params "MessageBody" == "") _ _ h
        (if-IsSound env _ _ _ h (enqueue_message-IsSound env queue _ _ _ s h)))

  pub receive_message-Keeps :
      (params : Params) (request_id : String) → Keeps env (receive_message env params request_id)
  unfolding receive_message received
  receive_message-Keeps params request_id =
      with_queue-Keeps env (queue_not_found request_id) params _
        (λ queue s h. receive-IsSound env queue _ _ s h)

  pub receive_message_json-Keeps : (params : Params) → Keeps env (receive_message_json env params)
  unfolding receive_message_json
  receive_message_json-Keeps params =
      with_queue-Keeps env queue_not_found_json params _ (λ queue s h.
        rw
          (take_items-eq env params _ _ _ (messages_of env queue s)
            (record s { tick = suc s.tick }))
          (take_visible-IsSound env _ _ _ (messages_of env queue s) (record s { tick = suc s.tick })
            h))

  pub delete_message-Keeps :
      (params : Params) (request_id : String) → Keeps env (delete_message env params request_id)
  unfolding delete_message
  delete_message-Keeps params request_id =
      with_queue-Keeps env (queue_not_found request_id) params _
        (λ queue s h. delete_receipt_handle-IsSound env queue (param params "ReceiptHandle") s h)

  pub delete_message_json-Keeps : (params : Params) → Keeps env (delete_message_json env params)
  unfolding delete_message_json
  delete_message_json-Keeps params =
      with_queue-Keeps env queue_not_found_json params _
        (λ queue s h. delete_receipt_handle-IsSound env queue (param params "ReceiptHandle") s h)

  visibility_changed-Keeps :
      (params : Params) (queue : Fields) → Keeps env (visibility_changed env params queue)
  unfolding visibility_changed
  visibility_changed-Keeps params queue s h = change_receipt_visibility-IsSound env queue _ _ s h

  pub change_message_visibility-Keeps :
      (params : Params) (request_id : String)
      → Keeps env (change_message_visibility env params request_id)
  unfolding change_message_visibility
  change_message_visibility-Keeps params request_id =
      with_queue-Keeps env (queue_not_found request_id) params _ (λ queue s h.
        if-IsSound env (param params "ReceiptHandle" == "") _ _ h
          (visibility_changed-Keeps params queue s h))

  pub change_message_visibility_json-Keeps :
      (params : Params) → Keeps env (change_message_visibility_json env params)
  unfolding change_message_visibility_json
  change_message_visibility_json-Keeps params =
      with_queue-Keeps env queue_not_found_json params _ (λ queue s h.
        if-IsSound env (param params "ReceiptHandle" == "") _ _ h
          (change_receipt_visibility-IsSound env queue _ _ s h))

  send_entry-Keeps :
      (queue : Fields) (params : Params) (prefix : String)
      → Keeps env (send_entry env queue params prefix)
  unfolding send_entry
  send_entry-Keeps queue params prefix s h =
      if-IsSound env (entry_param params prefix ".Id" == "") _ _ h (
        if-IsSound env (entry_param params prefix ".MessageBody" == "") _ _ h (
          if-IsSound env
            (int_less (int_field env.platform queue "max_message_size")
              (pos (byte_length (entry_param params prefix ".MessageBody"))))
            _ _ h (enqueue_message-IsSound env queue _ _ _ s h)))

  delete_entry-Keeps :
      (queue : Fields) (params : Params) (prefix : String)
      → Keeps env (delete_entry env queue params prefix)
  unfolding delete_entry
  delete_entry-Keeps queue params prefix s h =
      if-IsSound env (entry_param params prefix ".Id" == "") _ _ h (
        if-IsSound env (entry_param params prefix ".ReceiptHandle" == "") _ _ h
          (delete_receipt_handle-IsSound env queue _ s h))

  change_entry-Keeps :
      (queue : Fields) (params : Params) (prefix : String)
      → Keeps env (change_entry env queue params prefix)
  unfolding change_entry
  change_entry-Keeps queue params prefix s h =
      if-IsSound env (entry_param params prefix ".Id" == "") _ _ h (
        if-IsSound env (entry_param params prefix ".ReceiptHandle" == "") _ _ h
          (change_receipt_visibility-IsSound env queue _ _ s h))

  batch_IsSound :
      {A : Type 0} (v : Verdict) (s : State) (refuse : BatchValidationError → ErrorResponse)
      (entries : List String → A × State) (answer : A → ErrorResponse)
      → IsSound env s
      → ((l : List String) → IsSound env (entries l).1)
      → IsSound env (batched v s refuse entries answer).1
  unfolding batched
  batch_IsSound (refused e) s refuse entries answer h k = h
  batch_IsSound (accepted l) s refuse entries answer h k = k l

  send_message_batch_entries-Keeps :
      (queue : Fields) (params : Params) (prefixes : List String)
      → Keeps env (send_message_batch_entries env queue params prefixes)
  unfolding send_message_batch_entries
  send_message_batch_entries-Keeps queue params prefixes =
      each_entry-Keeps env (send_entry env queue params) prefixes (send_entry-Keeps queue params)

  pub send_message_batch-Keeps :
      (params : Params) (request_id : String) → Keeps env (send_message_batch env params request_id)
  unfolding send_message_batch
  send_message_batch-Keeps params request_id =
      with_queue-Keeps env (queue_not_found request_id) params _ (λ queue s h.
        batch_IsSound _ s _ _ _ h (λ l. send_message_batch_entries-Keeps queue params l s h))

  pub send_message_batch_json-Keeps :
      (params : Params) → Keeps env (send_message_batch_json env params)
  unfolding send_message_batch_json
  send_message_batch_json-Keeps params =
      with_queue-Keeps env queue_not_found_json params _ (λ queue s h.
        batch_IsSound _ s _ _ _ h (λ l. send_message_batch_entries-Keeps queue params l s h))

  delete_message_batch_entries-Keeps :
      (queue : Fields) (params : Params) (prefixes : List String)
      → Keeps env (delete_message_batch_entries env queue params prefixes)
  unfolding delete_message_batch_entries
  delete_message_batch_entries-Keeps queue params prefixes =
      each_entry-Keeps env (delete_entry env queue params) prefixes
        (delete_entry-Keeps queue params)

  pub delete_message_batch-Keeps :
      (params : Params) (request_id : String)
      → Keeps env (delete_message_batch env params request_id)
  unfolding delete_message_batch
  delete_message_batch-Keeps params request_id =
      with_queue-Keeps env (queue_not_found request_id) params _ (λ queue s h.
        batch_IsSound _ s _ _ _ h (λ l. delete_message_batch_entries-Keeps queue params l s h))

  pub delete_message_batch_json-Keeps :
      (params : Params) → Keeps env (delete_message_batch_json env params)
  unfolding delete_message_batch_json
  delete_message_batch_json-Keeps params =
      with_queue-Keeps env queue_not_found_json params _ (λ queue s h.
        batch_IsSound _ s _ _ _ h (λ l. delete_message_batch_entries-Keeps queue params l s h))

  change_message_visibility_batch_entries-Keeps :
      (queue : Fields) (params : Params) (prefixes : List String)
      → Keeps env (change_message_visibility_batch_entries env queue params prefixes)
  unfolding change_message_visibility_batch_entries
  change_message_visibility_batch_entries-Keeps queue params prefixes =
      each_entry-Keeps env (change_entry env queue params) prefixes
        (change_entry-Keeps queue params)

  pub change_message_visibility_batch-Keeps :
      (params : Params) (request_id : String)
      → Keeps env (change_message_visibility_batch env params request_id)
  unfolding change_message_visibility_batch
  change_message_visibility_batch-Keeps params request_id =
      with_queue-Keeps env (queue_not_found request_id) params _ (λ queue s h.
        batch_IsSound _ s _ _ _ h
          (λ l. change_message_visibility_batch_entries-Keeps queue params l s h))

  pub change_message_visibility_batch_json-Keeps :
      (params : Params) → Keeps env (change_message_visibility_batch_json env params)
  unfolding change_message_visibility_batch_json
  change_message_visibility_batch_json-Keeps params =
      with_queue-Keeps env queue_not_found_json params _ (λ queue s h.
        batch_IsSound _ s _ _ _ h
          (λ l. change_message_visibility_batch_entries-Keeps queue params l s h))
