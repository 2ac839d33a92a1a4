-- ===== src/Sns/Subscriptions.antt =====
-- The operations on subscriptions in internal/services/aws/sns/handler.go.
use emulate.Prelude.{
  ℕ, suc, true, ◌&&◌, ◌||◌, Option, none, some, [], ◌∷◌, filter, String, string_eq, ◌==◌,
  if◌then◌else◌,
}
use emulate.Store.Value.{Fields, str, bool, object, end, field}
use emulate.Store.Collection.{Collection, insert, update, delete}
use emulate.Protocols.Errors.{ErrorResponse}
use emulate.Sqs.Fields.{concat, int_field}
use emulate.Sqs.Params.{param}
use emulate.Sqs.Response.{query_error}
use emulate.Sqs.State.{first}
use emulate.Sqs.Delivery.Rows.{text_fields}
use emulate.Sns.Fields.{string_field}
use emulate.Sns.Params.{subscription_attributes}
use emulate.Sns.State.{
  Env, State, Request, drawn, account_id, region, find_subscription_by_arn, scoped_subscriptions,
  subscriptions_of,
}
use emulate.Sns.Response.{
  subscription_arn_response, subscriptions_response, empty_response, not_found,
}
use emulate.Sns.Topics.{with_topic}

-- The record and the subscriptions after an update that may fail; the record reads as nil then.
unfoldable pub with_subscriptions : Option (Collection × Fields) → State → Fields × State
with_subscriptions none s = (end, s)
with_subscriptions (some (c, out)) s = (out, record s { subscriptions = c })

module _ (env : Env) where
  -- The record that `subscribe` inserts.
  unfoldable pub new_subscription : Request → Fields → String → String → ℕ → Fields
  new_subscription ctx topic protocol endpoint draw =
      let arn = string_field env.platform topic "arn" in
      let id = env.sources.generate_id "" draw in
      field "account_id" (str (account_id env ctx)) (
        field "region" (str (region env ctx)) (
          field "topic_arn" (str arn) (
            field "subscription_arn" (str (concat (arn ∷ ":" ∷ id ∷ []))) (
              field "subscription_id" (str id) (
                field "protocol" (str protocol) (
                  field "endpoint" (str endpoint) (
                    field "attributes"
                      (object (text_fields (subscription_attributes env.platform ctx.query)))
                      (field "confirmation_token" (str (env.sources.generate_id "token" draw)) (
                        field "confirmed" (bool true)
                          (field "created_at" (str (env.sources.now_text draw)) end))))))))))

  -- The first subscription of the topic with the protocol and the endpoint.
  unfoldable pub same_subscription : Fields → String → String → State → Option Fields
  same_subscription topic protocol endpoint s = first (
      filter
        (λ subscription.
          string_field env.platform subscription "protocol" == protocol
          && string_field env.platform subscription "endpoint" == endpoint)
        (subscriptions_of env (string_field env.platform topic "arn") s))

  -- `subscribe` to the topic
  unfoldable pub subscribe_to :
      Request → String → String → String → Fields → State → ErrorResponse × State
  subscribe_to ctx request_id protocol endpoint topic s =
      let inserted =
        insert env.formats (env.sources.timestamp s.tick) s.subscriptions
          (new_subscription ctx topic protocol endpoint s.tick) in
      let arn =
        λ (subscription : Fields). string_field env.platform subscription "subscription_arn" in
      if protocol == "" || endpoint == ""
      then (query_error "InvalidParameter" "Protocol and Endpoint are required." 400 request_id, s)
      else elim (same_subscription topic protocol endpoint s) [
        | some existing ↦ (subscription_arn_response "Subscribe" (arn existing) request_id, s)
        | none ↦ (
          subscription_arn_response "Subscribe" (arn inserted.1) request_id,
          record s { subscriptions = inserted.0; tick = suc s.tick },
        )
      ]

  -- `subscribe`
  unfoldable pub subscribe : Request → String → State → ErrorResponse × State
  subscribe ctx request_id = with_topic env ctx (param ctx.query "TopicArn") request_id (
      subscribe_to ctx request_id
        (env.texts.to_lower (env.texts.trim_space (param ctx.query "Protocol")))
        (env.texts.trim_space (param ctx.query "Endpoint")))

  -- `unsubscribe`
  unfoldable pub unsubscribe : Request → String → State → ErrorResponse × State
  unsubscribe ctx request_id s = (
    empty_response "Unsubscribe" request_id,
    elim (find_subscription_by_arn env ctx (param ctx.query "SubscriptionArn") s) [
      | none ↦ s
      | some subscription ↦ record s {
        subscriptions =
            (delete env.formats s.subscriptions (int_field env.platform subscription "id")).0;
      }
    ],
  )

  -- `listSubscriptions`
  unfoldable pub list_subscriptions : Request → String → State → ErrorResponse × State
  list_subscriptions ctx request_id s = (
    subscriptions_response env.platform "ListSubscriptions" (scoped_subscriptions env ctx s)
        request_id,
    s,
  )

  -- `listSubscriptionsByTopic`
  unfoldable pub list_subscriptions_by_topic : Request → String → State → ErrorResponse × State
  list_subscriptions_by_topic ctx request_id =
      with_topic env ctx (param ctx.query "TopicArn") request_id (λ topic s. (
        subscriptions_response env.platform "ListSubscriptionsByTopic"
            (subscriptions_of env (string_field env.platform topic "arn") s) request_id,
        s,
      ))

  -- The first subscription of the topic with the token.
  unfoldable pub with_token : Fields → String → State → Option Fields
  with_token topic token s = first (
      filter (λ subscription. string_field env.platform subscription "confirmation_token" == token)
        (subscriptions_of env (string_field env.platform topic "arn") s))

  -- A subscription is confirmed.
  unfoldable pub confirmed : Fields → State → Fields × State
  confirmed subscription s =
      with_subscriptions
        (update env.formats (env.sources.timestamp s.tick) s.subscriptions
          (int_field env.platform subscription "id") (field "confirmed" (bool true) end))
        (drawn s)

  -- `confirmSubscription` to the topic
  unfoldable pub confirm_token : String → String → Fields → State → ErrorResponse × State
  confirm_token request_id token topic s =
      if env.texts.trim_space token == ""
      then (query_error "InvalidParameter" "Token is required." 400 request_id, s)
      else elim (with_token topic token s) [
        | none ↦ (not_found "Subscription" request_id, s)
        | some selected ↦
            let updated = confirmed selected s in
            (
              subscription_arn_response "ConfirmSubscription"
                  (string_field env.platform updated.0 "subscription_arn") request_id,
              updated.1,
            )
      ]

  -- `confirmSubscription`
  unfoldable pub confirm_subscription : Request → String → State → ErrorResponse × State
  confirm_subscription ctx request_id =
      with_topic env ctx (param ctx.query "TopicArn") request_id
        (confirm_token request_id (param ctx.query "Token"))
