-- ===== src/Sns/Publish.antt =====
-- `publish` of internal/services/aws/sns/handler.go and the delivery to the subscriptions, among them
-- queues of the SQS handler.
pub mod Count
use emulate.Prelude.{
  ℕ, suc, Bool, true, false, not, Option, none, some, List, [], ◌∷◌, String, string_eq, ◌==◌,
  if◌then◌else◌,
}
use emulate.Prelude.Int.{pos, int_less}
use emulate.Prelude.Int64.{after_seconds}
use emulate.Prelude.Result.{ok, err}
use emulate.Store.Value.{Fields, str, bool, int, row, end, field}
use emulate.Store.Collection.{insert}
use emulate.Protocols.Errors.{ErrorResponse}
use emulate.Sqs.Fields.{xml_escape, byte_length, bool_field, int_field}
use emulate.Sqs.Params.{param}
use emulate.Sqs.Response.{xml_response, document, query_error}
use emulate.Sqs.Messages.{md5_hex, md5_of_message_attributes}
use emulate.Sns.Fields.{first_non_empty, string_field}
use emulate.Sns.Params.{parse_message_attributes}
use emulate.Sns.State.{Env, State, Request, account_id, region, find_sqs_queue, subscriptions_of}
use emulate.Sns.Response.{value_line}
use emulate.Sns.Topics.{with_topic}
use emulate.Sns.Envelope.{Message, parse_json_message, is_json, is_raw, sqs_body}

module _ (env : Env) where
  -- The record that `deliverToSubscription` inserts for SQS.
  unfoldable pub sqs_message : Request → Fields → String → Fields → ℕ → Fields
  sqs_message ctx queue body attrs draw =
      let now = env.sources.now_millis draw in
      field "queue_name" (str (string_field env.platform queue "queue_name")) (
        field "message_id" (str (env.sources.generate_id "" draw)) (
          field "receipt_handle" (str (env.sources.receipt_handle draw)) (
            field "body" (str body) (
              field "md5_of_body" (str (md5_hex env.platform body)) (
                field "md5_of_message_attributes"
                  (str (md5_of_message_attributes env.platform attrs))
                  (field "first_receive_timestamp" (int (pos 0)) (
                    field "attributes"
                      (row (
                        field "SentTimestamp" (str (env.platform.itoa now)) (
                          field "ApproximateReceiveCount" (str "0") (
                            field "ApproximateFirstReceiveTimestamp" (str "")
                              (field "SenderId" (str (account_id env ctx)) end)))))
                      (field "message_attributes" (row attrs) (
                        field "visible_after"
                          (int (after_seconds now (int_field env.platform queue "delay_seconds")))
                          (field "sent_timestamp" (int now)
                            (field "receive_count" (int (pos 0)) end)))))))))))

  -- The fields that all deliveries have, before the rest.
  unfoldable pub delivery : Request → Fields → Fields → String → Fields → Fields
  delivery ctx topic subscription message_id rest = field "account_id" (str (account_id env ctx)) (
      field "region" (str (region env ctx)) (
        field "topic_arn" (str (string_field env.platform topic "arn")) (
          field "subscription_arn" (str (string_field env.platform subscription "subscription_arn"))
            (field "message_id" (str message_id) rest))))

  -- h.Deliveries.Insert
  unfoldable pub insert_delivery : Fields → State → State
  insert_delivery record_ s = record s {
    deliveries = (insert env.formats (env.sources.timestamp s.tick) s.deliveries record_).0;
    tick = suc s.tick;
  }

  -- The message is put into the queue, and the delivery is noted.
  unfoldable pub deliver_to_queue :
      Request → Fields → Fields → Message → Fields → String → Fields → State → State
  deliver_to_queue ctx topic subscription message queue body attrs s =
      let draw = s.tick in
      insert_delivery
        (delivery ctx topic subscription message.id (
          field "sqs_message_id" (str (env.sources.generate_id "" draw)) (
            field "protocol" (str "sqs") (
              field "endpoint" (str (string_field env.platform subscription "endpoint"))
                (field "created_at" (str (env.sources.now_text draw)) end)))))
        (record s {
          sqs_messages =
              (insert env.formats (env.sources.timestamp draw) s.sqs_messages
                (sqs_message ctx queue body attrs draw)).0;
        })

  -- The case sqs of `deliverToSubscription`, with the queue.
  unfoldable pub deliver_body : Request → Fields → Fields → Message → Fields → State → Bool × State
  deliver_body ctx topic subscription message queue s =
      let envelope_attrs = if is_json env message then end else message.attributes in
      let sqs_attrs = if is_raw env subscription then envelope_attrs else end in
      let body = sqs_body env topic subscription message envelope_attrs s.tick in
      if int_less (int_field env.platform queue "max_message_size") (pos (byte_length body))
      then (false, s)
      else (true, deliver_to_queue ctx topic subscription message queue body sqs_attrs s)

  -- The other protocols of `deliverToSubscription`: only the delivery is noted.
  unfoldable pub deliver_stub : Request → Fields → Fields → Message → State → Bool × State
  deliver_stub ctx topic subscription message s = (
    true,
    insert_delivery
        (delivery ctx topic subscription message.id (
          field "protocol" (str (string_field env.platform subscription "protocol")) (
            field "endpoint" (str (string_field env.platform subscription "endpoint")) (
              field "stubbed" (bool true)
                (field "created_at" (str (env.sources.now_text s.tick)) end)))))
        s,
  )

  -- `deliverToSubscription`
  unfoldable pub deliver_to_subscription :
      Request → Fields → Message → Fields → State → Bool × State
  deliver_to_subscription ctx topic message subscription s =
      if string_field env.platform subscription "protocol" == "sqs"
      then elim (find_sqs_queue env (string_field env.platform subscription "endpoint") s) [
        | none ↦ (false, s)
        | some queue ↦ deliver_body ctx topic subscription message queue s
      ]
      else deliver_stub ctx topic subscription message s

  -- The loop of `publish`, with the number of deliveries.
  unfoldable pub deliver_each : Request → Fields → Message → List Fields → ℕ × State → ℕ × State
  deliver_each ctx topic message [] state = state
  deliver_each ctx topic message (subscription ∷ rest) (delivered, s) =
      let attempt = deliver_to_subscription ctx topic message subscription s in
      deliver_each ctx topic message rest (
        if bool_field subscription "confirmed"
        then (if attempt.0 then suc delivered else delivered, attempt.1)
        else (delivered, s))

  -- The error for the structure of a message, where there is one.
  unfoldable pub structure_error : String → String → Option String
  structure_error structure text =
      if structure == ""
      then none
      else if not (env.platform.equal_fold structure "json")
      then some "MessageStructure must be json."
      else elim (parse_json_message env.texts text) [ ok body ↦ none | err problem ↦ some problem ]

  -- The message of a request, with a new id.
  unfoldable pub published : Request → ℕ → Message
  published ctx draw = record {
    id = env.sources.generate_id "" draw;
    subject = param ctx.query "Subject";
    text = param ctx.query "Message";
    structure = param ctx.query "MessageStructure";
    attributes = parse_message_attributes env.platform ctx.query;
  }

  -- `publish` to the topic, with a message that is allowed
  unfoldable pub publish_message : Request → Message → Fields → State → State
  publish_message ctx message topic s =
      let arn = string_field env.platform topic "arn" in
      let done =
        deliver_each ctx topic message (subscriptions_of env arn s)
          (0, record s { tick = suc s.tick }) in
      insert_delivery
        (field "account_id" (str (account_id env ctx)) (
          field "region" (str (region env ctx)) (
            field "topic_arn" (str arn) (
              field "message_id" (str message.id) (
                field "delivered" (int (pos done.0))
                  (field "created_at" (str (env.sources.now_text done.1.tick)) end))))))
        done.1

  -- `publish` to the topic
  unfoldable pub publish_to : Request → String → Fields → State → ErrorResponse × State
  publish_to ctx request_id topic s =
      let message = published ctx s.tick in
      if message.text == ""
      then (query_error "InvalidParameter" "Message is required." 400 request_id, s)
      else elim (structure_error message.structure message.text) [
        | some problem ↦ (query_error "InvalidParameter" problem 400 request_id, s)
        | none ↦ (
          xml_response 200 (
              document "Publish" (value_line "Publish" "MessageId" (xml_escape message.id))
                request_id),
          publish_message ctx message topic s,
        )
      ]

  -- `publish`
  unfoldable pub publish : Request → String → State → ErrorResponse × State
  publish ctx request_id =
      with_topic env ctx
        (first_non_empty (param ctx.query "TopicArn" ∷ param ctx.query "TargetArn" ∷ [])) request_id
        (publish_to ctx request_id)
