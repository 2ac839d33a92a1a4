-- ===== src/Sqs/Queues/Json.antt =====
-- The operations on queues in internal/services/aws/sqs/handler.go, for the JSON protocol.
use emulate.Prelude.{
  suc, none, some, List, [], ◌∷◌, String, string_eq, ◌==◌, if◌then◌else◌, ◌||◌, for_each,
}
use emulate.Prelude.Text.{has_prefix}
use emulate.Store.Value.{Fields, str, object, texts, end, field}
use emulate.Store.Collection.{insert, update, delete, all_records}
use emulate.Protocols.Errors.{ErrorResponse}
use emulate.Sqs.Fields.{string_field, int_field}
use emulate.Sqs.Params.{Params, param, indexed_attributes, indexed_tags}
use emulate.Sqs.State.{Env, State, find_queue_by_name, queue_url, region, account_id}
use emulate.Sqs.Response.{json_response, json_error, queue_not_found_json}
use emulate.Sqs.Attributes.{
  new_queue_record, queue_attribute_patch, queue_attribute_values, selected_queue_attributes,
  name_values_map,
}
use emulate.Sqs.Messages.{messages_of}
use emulate.Sqs.Queues.{with_queue, with_queues}

-- The answer with a queue's address.
unfoldable pub url_json : String → ErrorResponse
url_json url = json_response 200 (field "QueueUrl" (str url) end)

module _ (env : Env) where
  -- `createQueueJSON`
  unfoldable pub create_queue_json : Params → State → ErrorResponse × State
  create_queue_json params s =
      let queue_name = param params "QueueName" in
      let url = queue_url env queue_name in
      let inserted = insert env.formats (env.sources.timestamp s.tick) s.queues (
        new_queue_record env.platform queue_name url (region env) (account_id env)
          (indexed_attributes env.platform params "Attribute")
          (indexed_tags env.platform params "Tag")) in
      if queue_name == ""
      then (json_error "MissingParameter" "The request must contain the parameter QueueName.", s)
      else elim (find_queue_by_name env s queue_name) [
        | some existing ↦ (url_json (string_field env.platform existing "queue_url"), s)
        | none ↦ (url_json url, record s { queues = inserted.0; tick = suc s.tick })
      ]

  -- `deleteQueueJSON`
  unfoldable pub delete_queue_json : Params → State → ErrorResponse × State
  delete_queue_json params = with_queue env queue_not_found_json params (λ queue s. (
    json_response 200 end,
    record s {
      messages =
          for_each (λ message c. (delete env.formats c (int_field env.platform message "id")).0)
            (messages_of env queue s) s.messages;
      queues = (delete env.formats s.queues (int_field env.platform queue "id")).0;
    },
  ))

  -- The loop of `listQueuesJSON`.
  unfoldable pub queue_urls : String → List Fields → List String
  queue_urls prefix [] = []
  queue_urls prefix (queue ∷ queues) =
      let rest = queue_urls prefix queues in
      if prefix == "" || has_prefix (string_field env.platform queue "queue_name") prefix
      then string_field env.platform queue "queue_url" ∷ rest
      else rest

  -- `listQueuesJSON`
  unfoldable pub list_queues_json : Params → State → ErrorResponse × State
  list_queues_json params s = (
    json_response 200 (
        field "QueueUrls"
          (texts (queue_urls (param params "QueueNamePrefix") (all_records s.queues))) end),
    s,
  )

  -- `getQueueURLJSON`
  unfoldable pub get_queue_url_json : Params → State → ErrorResponse × State
  get_queue_url_json params s = elim (find_queue_by_name env s (param params "QueueName")) [
    | none ↦ (queue_not_found_json, s)
    | some queue ↦ (url_json (string_field env.platform queue "queue_url"), s)
  ]

  -- `getQueueAttributesJSON`
  unfoldable pub get_queue_attributes_json : Params → State → ErrorResponse × State
  get_queue_attributes_json params = with_queue env queue_not_found_json params (λ queue s. (
    json_response 200 (
        field "Attributes"
          (object (
            name_values_map
              (selected_queue_attributes env.platform
                (queue_attribute_values env (env.sources.now_millis s.tick) queue s) params)
              end))
          end),
    record s { tick = suc s.tick },
  ))

  -- `setQueueAttributesJSON`
  unfoldable pub set_queue_attributes_json : Params → State → ErrorResponse × State
  set_queue_attributes_json params = with_queue env queue_not_found_json params (λ queue s. (
    json_response 200 end,
    with_queues
        (update env.formats (env.sources.timestamp s.tick) s.queues
          (int_field env.platform queue "id")
          (queue_attribute_patch env.platform queue
            (indexed_attributes env.platform params "Attribute")))
        (record s { tick = suc s.tick }),
  ))

  -- `purgeQueueJSON`
  unfoldable pub purge_queue_json : Params → State → ErrorResponse × State
  purge_queue_json params = with_queue env queue_not_found_json params (λ queue s. (
    json_response 200 end,
    record s {
      messages =
          for_each (λ message c. (delete env.formats c (int_field env.platform message "id")).0)
            (messages_of env queue s) s.messages;
    },
  ))
