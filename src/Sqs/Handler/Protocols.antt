-- ===== src/Sqs/Handler/Protocols.antt =====
-- The two protocols of internal/services/aws/sqs/handler.go do the same to the state.
use emulate.Prelude.{
  ◌≡◌, inl, inr, refl, sym, ap, suc, List, arith, Option-cases, String, string_eq,
}
use emulate.Store.Value.{Fields}
use emulate.Protocols.Errors.{ErrorResponse}
use emulate.Sqs.Params.{Params, param}
use emulate.Sqs.State.{Env, State, find_queue_by_url}
use emulate.Sqs.Response.{BatchValidationError}
use emulate.Sqs.Batch.{Verdict, refused, accepted, batched}
use emulate.Sqs.Messages.{messages_of, receive, clamped}
use emulate.Sqs.Messages.Records.{for_each-delete}
use emulate.Sqs.Delivery.Taken.{take_items-eq}
use emulate.Sqs.Queues.{
  insert_queue, created_queue, without_queue, without_messages, with_attributes, with_queue,
  create_queue, delete_queue, list_queues, get_queue_url, get_queue_attributes,
  set_queue_attributes, purge_queue,
}
use emulate.Sqs.Queues.Tags.{
  tag_queue, untag_queue, list_queue_tags, tag_queue_json, untag_queue_json, list_queue_tags_json,
}
use emulate.Sqs.Queues.Json.{
  create_queue_json, delete_queue_json, list_queues_json, get_queue_url_json,
  get_queue_attributes_json, set_queue_attributes_json, purge_queue_json,
}
use emulate.Sqs.Delivery.{
  sent_message, too_long, received, visibility_changed, send_message, send_message_batch,
  receive_message, delete_message, delete_message_batch, change_message_visibility,
  change_message_visibility_batch,
}
use emulate.Sqs.Delivery.Json.{
  send_message_json, send_message_batch_json, receive_message_json, delete_message_json,
  delete_message_batch_json, change_message_visibility_json, change_message_visibility_batch_json,
}

-- Two operations leave the same state.
abbrev pub SameState : ErrorResponse × State → ErrorResponse × State → Type 0
SameState query json = query.1 ≡ json.1

module _ (env : Env) where
  with_queue-state :
      (x y : ErrorResponse) (params : Params) (f g : Fields → State → ErrorResponse × State)
      (s : State)
      → ((queue : Fields) → (f queue s).1 ≡ (g queue s).1)
      → (with_queue env x params f s).1 ≡ (with_queue env y params g s).1
  unfolding with_queue
  with_queue-state x y params f g s h =
      elim (Option-cases (find_queue_by_url env s (param params "QueueUrl"))) [
        | inl absent ↦ rw (absent, with_queue) refl
        | inr (queue, found) ↦ rw (found, with_queue) (h queue)
      ]

  batched-state :
      {A : Type 0} (v : Verdict) (s : State) (refuse refuse' : BatchValidationError → ErrorResponse)
      (entries : List String → A × State) (answer answer' : A → ErrorResponse)
      → (batched v s refuse entries answer).1 ≡ (batched v s refuse' entries answer').1
  unfolding batched
  batched-state (refused e) s refuse refuse' entries answer answer' = refl
  batched-state (accepted l) s refuse refuse' entries answer answer' = refl

  -- Each operation of the query protocol leaves the state that the operation of the JSON protocol
  -- under the same name leaves for the same parameters.
  pub protocols_agree :
      (params : Params) (request_id : String) (s : State)
      → SameState (create_queue env params request_id s) (create_queue_json env params s)
        × SameState (delete_queue env params request_id s) (delete_queue_json env params s)
        × SameState (list_queues env params request_id s) (list_queues_json env params s)
        × SameState (get_queue_url env params request_id s) (get_queue_url_json env params s)
        × SameState
            (get_queue_attributes env params request_id s)
            (get_queue_attributes_json env params s)
        × SameState
            (set_queue_attributes env params request_id s)
            (set_queue_attributes_json env params s)
        × SameState (send_message env params request_id s) (send_message_json env params s)
        × SameState
            (send_message_batch env params request_id s)
            (send_message_batch_json env params s)
        × SameState (receive_message env params request_id s) (receive_message_json env params s)
        × SameState (delete_message env params request_id s) (delete_message_json env params s)
        × SameState
            (delete_message_batch env params request_id s)
            (delete_message_batch_json env params s)
        × SameState
            (change_message_visibility env params request_id s)
            (change_message_visibility_json env params s)
        × SameState
            (change_message_visibility_batch env params request_id s)
            (change_message_visibility_batch_json env params s)
        × SameState (purge_queue env params request_id s) (purge_queue_json env params s)
        × SameState (tag_queue env params request_id s) (tag_queue_json env params s)
        × SameState (untag_queue env params request_id s) (untag_queue_json env params s)
        × SameState (list_queue_tags env params request_id s) (list_queue_tags_json env params s)
  unfolding create_queue create_queue_json delete_queue delete_queue_json list_queues
      list_queues_json get_queue_url get_queue_url_json get_queue_attributes
      get_queue_attributes_json set_queue_attributes set_queue_attributes_json send_message
      send_message_json send_message_batch send_message_batch_json receive_message
      receive_message_json delete_message delete_message_json delete_message_batch
      delete_message_batch_json change_message_visibility change_message_visibility_json
      change_message_visibility_batch change_message_visibility_batch_json purge_queue
      purge_queue_json tag_queue tag_queue_json untag_queue untag_queue_json list_queue_tags
      list_queue_tags_json insert_queue created_queue without_queue without_messages with_attributes
      sent_message too_long received receive clamped visibility_changed
  protocols_agree p id s = (
    ground arith,
    with_queue-state _ _ p _ _ s (λ q. refl),
    refl,
    ground arith,
    with_queue-state _ _ p _ _ s (λ q. refl),
    with_queue-state _ _ p _ _ s (λ q. refl),
    with_queue-state _ _ p _ _ s (λ q. ground arith),
    with_queue-state _ _ p _ _ s (λ q. batched-state _ s _ _ _ _ _),
    with_queue-state _ _ p _ _ s (λ q. sym (
        ap (λ taken. taken.1)
          (take_items-eq env p _ _ _ (messages_of env q s) (record s { tick = suc s.tick })))),
    with_queue-state _ _ p _ _ s (λ q. refl),
    with_queue-state _ _ p _ _ s (λ q. batched-state _ s _ _ _ _ _),
    with_queue-state _ _ p _ _ s (λ q. ground arith),
    with_queue-state _ _ p _ _ s (λ q. batched-state _ s _ _ _ _ _),
    with_queue-state _ _ p _ _ s (λ q.
        ap (λ c. record s { messages = c })
          (sym (for_each-delete env (messages_of env q s) s.messages))),
    with_queue-state _ _ p _ _ s (λ q. refl),
    with_queue-state _ _ p _ _ s (λ q. refl),
    with_queue-state _ _ p _ _ s (λ q. refl),
  )
