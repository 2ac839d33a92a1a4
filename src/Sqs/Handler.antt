-- ===== src/Sqs/Handler.antt =====
-- The entry of internal/services/aws/sqs/handler.go: `Handle` and `handleJSON`.
pub mod Invariant
pub mod Absent
pub mod Operations
pub mod Requests
pub mod Protocols
use emulate.Prelude.{
  ℕ, suc, Bool, true, false, Option, none, some, List, [], ◌∷◌, String, string_eq, ◌==◌,
  if◌then◌else◌,
}
use emulate.Prelude.Assoc.{Assoc, lookup}
use emulate.Store.Value.{Fields}
use emulate.Protocols.Errors.{ErrorResponse}
use emulate.Sqs.Fields.{concat}
use emulate.Sqs.Params.{Params}
use emulate.Sqs.State.{Env, State}
use emulate.Sqs.Response.{query_error, json_error, with_request_id}
use emulate.Sqs.Input.{json_params}
use emulate.Sqs.Queues.{
  create_queue, delete_queue, list_queues, get_queue_url, get_queue_attributes,
  set_queue_attributes, purge_queue,
}
use emulate.Sqs.Queues.Tags.{
  tag_queue, untag_queue, list_queue_tags, tag_queue_json, untag_queue_json, list_queue_tags_json,
}
use emulate.Sqs.Queues.Json.{
  create_queue_json, delete_queue_json, list_queues_json, get_queue_url_json,
  get_queue_attributes_json, set_queue_attributes_json, purge_queue_json,
}
use emulate.Sqs.Delivery.{
  send_message, send_message_batch, receive_message, delete_message, delete_message_batch,
  change_message_visibility, change_message_visibility_batch,
}
use emulate.Sqs.Delivery.Json.{
  send_message_json, send_message_batch_json, receive_message_json, delete_message_json,
  delete_message_batch_json, change_message_visibility_json, change_message_visibility_batch_json,
}

-- What is read of gateway.AwsRequestContext, with whether the protocol is the JSON one.
pub record AwsRequestContext : Type 0 where
  pub is_json : Bool
  pub action : String
  pub request_id : String
  pub query : Params
  pub input : Fields

module _ (env : Env) where
  -- The cases of `Handle`.
  unfoldable pub query_operations : Assoc String (Params → String → State → ErrorResponse × State)
  query_operations =
      ("CreateQueue", create_queue env)
      ∷ ("DeleteQueue", delete_queue env)
      ∷ ("ListQueues", list_queues env)
      ∷ ("GetQueueUrl", get_queue_url env)
      ∷ ("GetQueueAttributes", get_queue_attributes env)
      ∷ ("SetQueueAttributes", set_queue_attributes env)
      ∷ ("SendMessage", send_message env)
      ∷ ("SendMessageBatch", send_message_batch env)
      ∷ ("ReceiveMessage", receive_message env)
      ∷ ("DeleteMessage", delete_message env)
      ∷ ("DeleteMessageBatch", delete_message_batch env)
      ∷ ("ChangeMessageVisibility", change_message_visibility env)
      ∷ ("ChangeMessageVisibilityBatch", change_message_visibility_batch env)
      ∷ ("PurgeQueue", purge_queue env)
      ∷ ("TagQueue", tag_queue env)
      ∷ ("UntagQueue", untag_queue env)
      ∷ ("ListQueueTags", list_queue_tags env)
      ∷ []

  -- The cases of `handleJSON`.
  unfoldable pub json_operations : Assoc String (Params → State → ErrorResponse × State)
  json_operations =
      ("CreateQueue", create_queue_json env)
      ∷ ("DeleteQueue", delete_queue_json env)
      ∷ ("ListQueues", list_queues_json env)
      ∷ ("GetQueueUrl", get_queue_url_json env)
      ∷ ("GetQueueAttributes", get_queue_attributes_json env)
      ∷ ("SetQueueAttributes", set_queue_attributes_json env)
      ∷ ("SendMessage", send_message_json env)
      ∷ ("SendMessageBatch", send_message_batch_json env)
      ∷ ("ReceiveMessage", receive_message_json env)
      ∷ ("DeleteMessage", delete_message_json env)
      ∷ ("DeleteMessageBatch", delete_message_batch_json env)
      ∷ ("ChangeMessageVisibility", change_message_visibility_json env)
      ∷ ("ChangeMessageVisibilityBatch", change_message_visibility_batch_json env)
      ∷ ("PurgeQueue", purge_queue_json env)
      ∷ ("TagQueue", tag_queue_json env)
      ∷ ("UntagQueue", untag_queue_json env)
      ∷ ("ListQueueTags", list_queue_tags_json env)
      ∷ []

  -- The text of the error for an action that there is not.
  unfoldable pub invalid_action : String → String
  invalid_action action = concat ("The action " ∷ action ∷ " is not valid for this endpoint." ∷ [])

  -- The request's id, or a new one.
  unfoldable pub chosen_request_id : AwsRequestContext → State → String × State
  chosen_request_id ctx s =
      if ctx.request_id == ""
      then (env.sources.message_id s.tick, record s { tick = suc s.tick })
      else (ctx.request_id, s)

  -- `handleJSON`
  unfoldable pub handle_json : AwsRequestContext → State → ErrorResponse × State
  handle_json ctx s =
      let chosen = chosen_request_id ctx s in
      let done : ErrorResponse × State = elim (lookup ctx.action json_operations) [
        | none ↦ (json_error "InvalidAction" (invalid_action ctx.action), chosen.1)
        | some operation ↦ operation (json_params env.platform ctx.action ctx.input) chosen.1
      ] in
      (with_request_id done.0 chosen.0, done.1)

  -- `Handle`
  unfoldable pub handle : AwsRequestContext → State → ErrorResponse × State
  handle ctx s =
      let chosen = chosen_request_id ctx s in
      let done : ErrorResponse × State = elim (lookup ctx.action query_operations) [
        | none ↦ (query_error "InvalidAction" (invalid_action ctx.action) 400 chosen.0, chosen.1)
        | some operation ↦ operation ctx.query chosen.0 chosen.1
      ] in
      if ctx.is_json then handle_json ctx s else (with_request_id done.0 chosen.0, done.1)
