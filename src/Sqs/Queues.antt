-- ===== src/Sqs/Queues.antt =====
-- The operations on queues in internal/services/aws/sqs/handler.go, for the query protocol.
pub mod Tags
pub mod Json
use emulate.Prelude.{
  ℕ, suc, Bool, true, false, Option, none, some, List, [], ◌∷◌, String, string_eq, ◌==◌,
  if◌then◌else◌, ◌||◌, for_each,
}
use emulate.Prelude.Text.{has_prefix, trim_right}
use emulate.Store.Value.{Fields}
use emulate.Store.Collection.{Collection, insert, update, delete, all_records}
use emulate.Protocols.Errors.{ErrorResponse}
use emulate.Sqs.Fields.{concat, xml_escape, string_field, int_field}
use emulate.Sqs.Params.{Params, param, indexed_attributes, indexed_tags}
use emulate.Sqs.State.{
  Env, State, find_queue_by_name, find_queue_by_url, region, account_id, queue_url,
}
use emulate.Sqs.Response.{
  NameValue, plain_answer, answer, queue_url_response, query_error, queue_not_found,
}
use emulate.Sqs.Attributes.{
  new_queue_record, queue_attribute_patch, queue_attribute_values, selected_queue_attributes,
}
use emulate.Sqs.Messages.{messages_of, delete_each}

-- The queue's collection after an update, which changes nothing where the queue is gone.
unfoldable pub with_queues : Option (Collection × Fields) → State → State
with_queues none s = s
with_queues (some (c, out)) s = record s { queues = c }

-- The rows of `getQueueAttributes`.
unfoldable pub attribute_rows : List NameValue → String
attribute_rows [] = ""
attribute_rows (attr ∷ attrs) = concat (
    "    <Attribute><Name>"
    ∷ xml_escape attr.name
    ∷ "</Name><Value>"
    ∷ xml_escape attr.value
    ∷ "</Value></Attribute>\n"
    ∷ attribute_rows attrs
    ∷ [])

module _ (env : Env) where
  -- What an operation does with the queue of the parameter QueueUrl, or its answer where there is
  -- none.
  unfoldable pub with_queue :
      ErrorResponse
      → Params
      → (Fields → State → ErrorResponse × State)
      → State
      → ErrorResponse × State
  with_queue missing params operation s = elim (find_queue_by_url env s (param params "QueueUrl")) [
    | none ↦ (missing, s)
    | some queue ↦ operation queue s
  ]

  -- The record that `createQueue` inserts.
  unfoldable pub created_queue : Params → Fields
  created_queue params =
      let queue_name = param params "QueueName" in
      new_queue_record env.platform queue_name (queue_url env queue_name) (region env)
        (account_id env) (indexed_attributes env.platform params "Attribute")
        (indexed_tags env.platform params "Tag")

  unfoldable pub insert_queue : Params → State → Fields × State
  insert_queue params s =
      let inserted =
        insert env.formats (env.sources.timestamp s.tick) s.queues (created_queue params) in
      (inserted.1, record s { queues = inserted.0; tick = suc s.tick })

  -- `createQueue`
  unfoldable pub create_queue : Params → String → State → ErrorResponse × State
  create_queue params request_id s =
      let queue_name = param params "QueueName" in
      let created = insert_queue params s in
      if queue_name == ""
      then (
        query_error "MissingParameter" "The request must contain the parameter QueueName." 400
            request_id,
        s,
      )
      else elim (find_queue_by_name env s queue_name) [
        | some existing ↦ (
          queue_url_response "CreateQueue" (string_field env.platform existing "queue_url")
              request_id,
          s,
        )
        | none ↦ (
          queue_url_response "CreateQueue" (string_field env.platform created.0 "queue_url")
              request_id,
          created.1,
        )
      ]

  -- The messages of the queue are deleted, in `purgeQueue`.
  unfoldable pub without_messages : Fields → State → State
  without_messages queue s = record s {
    messages = delete_each env (messages_of env queue s) s.messages;
  }

  -- The messages of the queue and the queue itself are deleted, in `deleteQueue`.
  unfoldable pub without_queue : Fields → State → State
  without_queue queue s = record s {
    messages =
        for_each (λ message c. (delete env.formats c (int_field env.platform message "id")).0)
          (messages_of env queue s) s.messages;
    queues = (delete env.formats s.queues (int_field env.platform queue "id")).0;
  }

  -- `deleteQueue`
  unfoldable pub delete_queue : Params → String → State → ErrorResponse × State
  delete_queue params request_id =
      with_queue (queue_not_found request_id) params
        (λ queue s. (plain_answer "DeleteQueue" request_id, without_queue queue s))

  -- The test of a queue in `listQueues`.
  unfoldable pub listed : String → Fields → Bool
  listed prefix queue =
      prefix == "" || has_prefix (string_field env.platform queue "queue_name") prefix

  -- The loop of `listQueues`.
  unfoldable pub queue_rows : String → List Fields → String
  queue_rows prefix [] = ""
  queue_rows prefix (queue ∷ queues) =
      let rest = queue_rows prefix queues in
      if listed prefix queue
      then concat (
          "    <QueueUrl>"
          ∷ xml_escape (string_field env.platform queue "queue_url")
          ∷ "</QueueUrl>\n"
          ∷ rest
          ∷ [])
      else rest

  -- `listQueues`
  unfoldable pub list_queues : Params → String → State → ErrorResponse × State
  list_queues params request_id s = (
    answer "ListQueues"
        (trim_right 10 (queue_rows (param params "QueueNamePrefix") (all_records s.queues)))
        request_id,
    s,
  )

  -- `getQueueURL`
  unfoldable pub get_queue_url : Params → String → State → ErrorResponse × State
  get_queue_url params request_id s = elim (find_queue_by_name env s (param params "QueueName")) [
    | none ↦ (queue_not_found request_id, s)
    | some queue ↦ (
      queue_url_response "GetQueueUrl" (string_field env.platform queue "queue_url") request_id,
      s,
    )
  ]

  -- `getQueueAttributes`
  unfoldable pub get_queue_attributes : Params → String → State → ErrorResponse × State
  get_queue_attributes params request_id =
      with_queue (queue_not_found request_id) params (λ queue s. (
        answer "GetQueueAttributes"
            (trim_right 10 (
              attribute_rows (
                selected_queue_attributes env.platform
                  (queue_attribute_values env (env.sources.now_millis s.tick) queue s) params)))
            request_id,
        record s { tick = suc s.tick },
      ))

  -- The patch of `setQueueAttributes` is applied.
  unfoldable pub with_attributes : Params → Fields → State → State
  with_attributes params queue s =
      with_queues
        (update env.formats (env.sources.timestamp s.tick) s.queues
          (int_field env.platform queue "id")
          (queue_attribute_patch env.platform queue
            (indexed_attributes env.platform params "Attribute")))
        (record s { tick = suc s.tick })

  -- `setQueueAttributes`
  unfoldable pub set_queue_attributes : Params → String → State → ErrorResponse × State
  set_queue_attributes params request_id =
      with_queue (queue_not_found request_id) params
        (λ queue s. (plain_answer "SetQueueAttributes" request_id, with_attributes params queue s))

  -- `purgeQueue`
  unfoldable pub purge_queue : Params → String → State → ErrorResponse × State
  purge_queue params request_id =
      with_queue (queue_not_found request_id) params
        (λ queue s. (plain_answer "PurgeQueue" request_id, without_messages queue s))
