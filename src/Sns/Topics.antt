-- ===== src/Sns/Topics.antt =====
-- The operations on topics in internal/services/aws/sns/handler.go.
pub mod Tagging
use emulate.Prelude.{
  ℕ, suc, ◌&&◌, Option, none, some, List, [], ◌∷◌, filter, length, nat_eq, String, string_eq, ◌==◌,
  if◌then◌else◌,
}
use emulate.Prelude.Int.{pos}
use emulate.Prelude.Text.{has_suffix}
use emulate.Prelude.Assoc.{put}
use emulate.Store.Value.{
  Value, Fields, Rows, str, object, rows, objects, texts, end, field, no_rows, next_row, get_or_nil,
}
use emulate.Store.Collection.{Collection, insert, update, delete, find_by}
use emulate.Protocols.Errors.{ErrorResponse}
use emulate.Sqs.Fields.{concat, bool_field, int_field}
use emulate.Sqs.Params.{Params, param, put_each, indexed_attributes}
use emulate.Sqs.Response.{plain_answer, query_error}
use emulate.Sqs.Delivery.Rows.{text_fields}
use emulate.Sns.Fields.{
  rows_of, record_list, string_field, string_slice, string_map_field, sort_by, value_of,
}
use emulate.Sns.Params.{indexed_tags, entry_map}
use emulate.Sns.State.{
  Env, State, Request, drawn, account_id, region, find_topic_by_name, find_topic_by_arn,
  scoped_topics, subscriptions_of, topic_arn,
}
use emulate.Sns.Response.{
  topic_arn_response, list_answer, attributes_response, not_found, topic_rows,
}

-- The topics after an update, which changes nothing where the topic is gone.
unfoldable pub with_topics : Option (Collection × Fields) → State → State
with_topics none s = s
with_topics (some (c, out)) s = record s { topics = c }

module _ (env : Env) where
  -- What an operation does with the topic of an ARN, or its answer where there is none.
  unfoldable pub with_topic :
      Request
      → String
      → String
      → (Fields → State → ErrorResponse × State)
      → State
      → ErrorResponse × State
  with_topic ctx arn request_id operation s = elim (find_topic_by_arn env ctx arn s) [
    | none ↦ (not_found "Topic" request_id, s)
    | some topic ↦ operation topic s
  ]

  -- Update of a topic with one field.
  unfoldable pub update_topic : Fields → String → Value → State → State
  update_topic topic name value s =
      with_topics
        (update env.formats (env.sources.timestamp s.tick) s.topics
          (int_field env.platform topic "id") (field name value end))
        (drawn s)

  -- The attributes of a new topic in `createTopic`.
  unfoldable pub topic_attributes_given : Request → String → Params
  topic_attributes_given ctx name =
      let attributes =
        put_each (entry_map env.platform ctx.query "Attributes")
          (indexed_attributes env.platform ctx.query "Attribute") in
      if has_suffix name ".fifo" && value_of attributes "FifoTopic" == ""
      then put "FifoTopic" "true" attributes
      else attributes

  -- The record that `createTopic` inserts.
  unfoldable pub new_topic : Request → String → ℕ → Fields
  new_topic ctx name draw =
      let account = account_id env ctx in
      let place = region env ctx in
      field "account_id" (str account) (
        field "region" (str place) (
          field "topic_name" (str name) (
            field "arn" (str (topic_arn place account name)) (
              field "attributes" (object (text_fields (topic_attributes_given ctx name))) (
                field "tags" (rows (rows_of (indexed_tags env.platform ctx.query))) (
                  field "permissions" (rows no_rows)
                    (field "created_at" (str (env.sources.now_text draw)) end)))))))

  -- `createTopic`
  unfoldable pub create_topic : Request → String → State → ErrorResponse × State
  create_topic ctx request_id s =
      let name = env.texts.trim_space (param ctx.query "Name") in
      let inserted =
        insert env.formats (env.sources.timestamp s.tick) s.topics (new_topic ctx name s.tick) in
      if name == ""
      then (query_error "InvalidParameter" "Topic Name is required." 400 request_id, s)
      else elim (find_topic_by_name env ctx name s) [
        | some existing ↦ (
          topic_arn_response "CreateTopic" (string_field env.platform existing "arn") request_id,
          s,
        )
        | none ↦ (
          topic_arn_response "CreateTopic" (string_field env.platform inserted.1 "arn") request_id,
          record s { topics = inserted.0; tick = suc s.tick },
        )
      ]

  -- The records are deleted by their ids.
  unfoldable pub delete_records : List Fields → Collection → Collection
  delete_records [] c = c
  delete_records (record_ ∷ rest) c =
      delete_records rest (delete env.formats c (int_field env.platform record_ "id")).0

  -- A topic is deleted, with its subscriptions and deliveries.
  unfoldable pub without_topic : Fields → State → State
  without_topic topic s =
      let arn = string_field env.platform topic "arn" in
      record s {
        subscriptions = delete_records (subscriptions_of env arn s) s.subscriptions;
        deliveries =
            delete_records (find_by env.formats s.deliveries "topic_arn" (str arn)) s.deliveries;
        topics = (delete env.formats s.topics (int_field env.platform topic "id")).0;
      }

  -- `deleteTopic`
  unfoldable pub delete_topic : Request → String → State → ErrorResponse × State
  delete_topic ctx request_id s = (
    plain_answer "DeleteTopic" request_id,
    elim (find_topic_by_arn env ctx (param ctx.query "TopicArn") s) [
      | none ↦ s
      | some topic ↦ without_topic topic s
    ],
  )

  -- `listTopics`
  unfoldable pub list_topics : Request → String → State → ErrorResponse × State
  list_topics ctx request_id s = (
    list_answer "ListTopics" "Topics"
        (topic_rows env.platform (sort_by env.platform "arn" (scoped_topics env ctx s))) request_id,
    s,
  )

  -- `confirmedSubscriptionCount`
  unfoldable pub confirmed_subscription_count : String → State → ℕ
  confirmed_subscription_count arn s =
      length
        (filter (λ subscription. bool_field subscription "confirmed") (subscriptions_of env arn s))

  -- The statements of `policyDocument`.
  unfoldable pub statements : Fields → List Fields → Rows
  statements topic [] = no_rows
  statements topic (permission ∷ permissions) =
      let go = env.platform in
      next_row
        (field "Sid" (str (string_field go permission "Label")) (
          field "Effect" (str "Allow") (
            field "Principal"
              (object
                (field "AWS" (texts (string_slice go (get_or_nil "AWSAccountId" permission))) end))
              (field "Action" (texts (string_slice go (get_or_nil "ActionName" permission)))
                (field "Resource" (str (string_field go topic "arn")) end)))))
        (statements topic permissions)

  -- `policyDocument`
  unfoldable pub policy_document : Fields → String
  policy_document topic = env.texts.marshal (
      object (
        field "Version" (str "2008-10-17") (
          field "Id" (str (concat (string_field env.platform topic "arn" ∷ "/policy" ∷ []))) (
            field "Statement"
              (objects (statements topic (record_list (get_or_nil "permissions" topic)))) end))))

  -- `topicAttributes`
  unfoldable pub topic_attributes : Fields → State → Params
  topic_attributes topic s =
      let arn = string_field env.platform topic "arn" in
      let attrs = put "SubscriptionsDeleted" "0" (
        put "SubscriptionsPending" "0" (
          put "SubscriptionsConfirmed"
            (env.platform.itoa (pos (confirmed_subscription_count arn s)))
            (put "Owner" (string_field env.platform topic "account_id")
              (put "TopicArn" arn (string_map_field env.platform topic "attributes"))))) in
      if value_of attrs "Policy" == "" then put "Policy" (policy_document topic) attrs else attrs

  -- `getTopicAttributes`
  unfoldable pub get_topic_attributes : Request → String → State → ErrorResponse × State
  get_topic_attributes ctx request_id =
      with_topic ctx (param ctx.query "TopicArn") request_id (λ topic s.
        (attributes_response "GetTopicAttributes" (topic_attributes topic s) request_id, s))

  -- `setTopicAttributes`
  unfoldable pub set_topic_attributes : Request → String → State → ErrorResponse × State
  set_topic_attributes ctx request_id =
      with_topic ctx (param ctx.query "TopicArn") request_id (λ topic s.
        let name = env.texts.trim_space (param ctx.query "AttributeName") in
        let attrs =
          put name (param ctx.query "AttributeValue")
            (string_map_field env.platform topic "attributes") in
        if name == ""
        then (query_error "InvalidParameter" "AttributeName is required." 400 request_id, s)
        else (
          plain_answer "SetTopicAttributes" request_id,
          update_topic topic "attributes" (object (text_fields attrs)) s,
        ))
