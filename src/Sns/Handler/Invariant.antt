-- ===== src/Sns/Handler/Invariant.antt =====
-- The operations of internal/services/aws/sns/handler.go keep all five collections valid, those of
-- the SQS handler included.
use emulate.Prelude.{
  inl, inr, Bool, true, false, ◌||◌, Option, none, some, List, [], ◌∷◌, suc, Option-cases,
  Bool-cases, String, string_eq, ◌==◌, if◌then◌else◌,
}
use emulate.Store.Value.{Value, Fields}
use emulate.Store.Collection.{Collection}
use emulate.Store.Collection.Invariant.{
  IsValid, changed, insert-IsValid, update-IsValid, delete-IsValid,
}
use emulate.Protocols.Errors.{ErrorResponse}
use emulate.Sqs.Fields.{int_field}
use emulate.Sqs.Params.{param}
use emulate.Sns.State.{
  Env, State, Request, drawn, find_topic_by_name, find_topic_by_arn, find_subscription_by_arn,
}
use emulate.Sns.Topics.{
  with_topics, with_topic, update_topic, create_topic, delete_records, without_topic, delete_topic,
  set_topic_attributes,
}
use emulate.Sns.Topics.Tagging.{add_permission}
use emulate.Sns.Subscriptions.{
  with_subscriptions, same_subscription, subscribe_to, subscribe, unsubscribe, with_token,
  confirmed, confirm_token, confirm_subscription,
}

-- All collections are valid.
abbrev pub IsSound : Env → State → Type 0
IsSound env s =
    IsValid env.formats s.topics
    × IsValid env.formats s.subscriptions
    × IsValid env.formats s.deliveries
    × IsValid env.formats s.sqs_queues
    × IsValid env.formats s.sqs_messages

-- An operation keeps all collections valid.
abbrev pub Keeps : Env → {A : Type 0} → (State → A × State) → Type 0
Keeps env operation = (s : State) → IsSound env s → IsSound env (operation s).1

-- One of two results with the states that they leave.
pub if-IsSound :
    (env : Env) {A : Type 0} (a : Bool) (x y : A × State)
    → IsSound env x.1
    → IsSound env y.1
    → IsSound env (if◌then◌else◌ {A = A × State} a x y).1
if-IsSound env true x y h k = h
if-IsSound env false x y h k = k

module _ (env : Env) where
  pub with_topic-Keeps :
      (ctx : Request) (arn request_id : String) (operation : Fields → State → ErrorResponse × State)
      → ((topic : Fields) → Keeps env (operation topic))
      → Keeps env (with_topic env ctx arn request_id operation)
  unfolding with_topic
  with_topic-Keeps ctx arn request_id operation keeps s h =
      elim (Option-cases (find_topic_by_arn env ctx arn s)) [
        | inl absent ↦ rw (absent, with_topic) h
        | inr (topic, found) ↦ rw (found, with_topic) (keeps topic s h)
      ]

  with_topics-IsSound :
      (o : Option (Collection × Fields)) (s : State)
      → IsSound env s
      → IsValid env.formats (changed s.topics o)
      → IsSound env (with_topics o s)
  unfolding with_topics
  with_topics-IsSound none s h v = h
  with_topics-IsSound (some (c, out)) s (t, u, d, q, m) v = (v, u, d, q, m)

  pub update_topic-IsSound :
      (topic : Fields) (name : String) (value : Value) (s : State)
      → IsSound env s
      → IsSound env (update_topic env topic name value s)
  unfolding update_topic drawn
  update_topic-IsSound topic name value s h =
      with_topics-IsSound _ (record s { tick = suc s.tick }) h
        (update-IsValid env.formats (env.sources.timestamp s.tick) s.topics
          (int_field env.platform topic "id") _ h.0)

  pub create_topic-Keeps :
      (ctx : Request) (request_id : String) → Keeps env (create_topic env ctx request_id)
  unfolding create_topic
  create_topic-Keeps ctx request_id s (t, u, d, q, m) =
      let name = env.texts.trim_space (param ctx.query "Name") in
      let stored = insert-IsValid env.formats (env.sources.timestamp s.tick) s.topics _ t in
      elim (Bool-cases (name == "")) [
        | inl unnamed ↦ rw (unnamed, create_topic) (t, u, d, q, m)
        | inr named ↦ elim (Option-cases (find_topic_by_name env ctx name s)) [
          | inl fresh ↦ rw (named, fresh, create_topic) (stored, u, d, q, m)
          | inr (topic, found) ↦ rw (named, found, create_topic) (t, u, d, q, m)
        ]
      ]

  delete_records-IsValid :
      (records : List Fields) (c : Collection)
      → IsValid env.formats c
      → IsValid env.formats (delete_records env records c)
  unfolding delete_records
  delete_records-IsValid [] c v = v
  delete_records-IsValid (record_ ∷ rest) c v =
      delete_records-IsValid rest _
        (delete-IsValid env.formats c (int_field env.platform record_ "id") v)

  pub delete_topic-Keeps :
      (ctx : Request) (request_id : String) → Keeps env (delete_topic env ctx request_id)
  unfolding delete_topic without_topic
  delete_topic-Keeps ctx request_id s (t, u, d, q, m) =
      elim (Option-cases (find_topic_by_arn env ctx (param ctx.query "TopicArn") s)) [
        | inl absent ↦ rw (absent, delete_topic) (t, u, d, q, m)
        | inr (topic, found) ↦
            rw (found, delete_topic)
              (
                delete-IsValid env.formats s.topics (int_field env.platform topic "id") t,
                delete_records-IsValid _ s.subscriptions u,
                delete_records-IsValid _ s.deliveries d,
                q,
                m,
              )
      ]

  pub set_topic_attributes-Keeps :
      (ctx : Request) (request_id : String) → Keeps env (set_topic_attributes env ctx request_id)
  unfolding set_topic_attributes
  set_topic_attributes-Keeps ctx request_id = with_topic-Keeps ctx _ request_id _ (λ topic s h.
      if-IsSound env (env.texts.trim_space (param ctx.query "AttributeName") == "") _ _ h
        (update_topic-IsSound topic "attributes" _ s h))

  pub add_permission-Keeps :
      (ctx : Request) (request_id : String) → Keeps env (add_permission env ctx request_id)
  unfolding add_permission
  add_permission-Keeps ctx request_id = with_topic-Keeps ctx _ request_id _ (λ topic s h.
      if-IsSound env (env.texts.trim_space (param ctx.query "Label") == "") _ _ h
        (update_topic-IsSound topic "permissions" _ s h))

  pub subscribe-Keeps :
      (ctx : Request) (request_id : String) → Keeps env (subscribe env ctx request_id)
  unfolding subscribe subscribe_to
  subscribe-Keeps ctx request_id =
      let protocol = env.texts.to_lower (env.texts.trim_space (param ctx.query "Protocol")) in
      let endpoint = env.texts.trim_space (param ctx.query "Endpoint") in
      with_topic-Keeps ctx _ request_id _ (λ topic s (t, u, d, q, m).
        let stored =
          insert-IsValid env.formats (env.sources.timestamp s.tick) s.subscriptions _ u in
        elim (Bool-cases (protocol == "" || endpoint == "")) [
          | inl missing ↦ rw (missing, subscribe_to) (t, u, d, q, m)
          | inr given ↦ elim (Option-cases (same_subscription env topic protocol endpoint s)) [
            | inl fresh ↦ rw (given, fresh, subscribe_to) (t, stored, d, q, m)
            | inr (subscription, found) ↦ rw (given, found, subscribe_to) (t, u, d, q, m)
          ]
        ])

  pub unsubscribe-Keeps :
      (ctx : Request) (request_id : String) → Keeps env (unsubscribe env ctx request_id)
  unfolding unsubscribe
  unsubscribe-Keeps ctx request_id s (t, u, d, q, m) =
      elim (Option-cases (find_subscription_by_arn env ctx (param ctx.query "SubscriptionArn") s)) [
        | inl absent ↦ rw (absent, unsubscribe) (t, u, d, q, m)
        | inr (subscription, found) ↦
            rw (found, unsubscribe)
              (
                t,
                delete-IsValid env.formats s.subscriptions
                    (int_field env.platform subscription "id") u,
                d,
                q,
                m,
              )
      ]

  with_subscriptions-IsSound :
      (o : Option (Collection × Fields)) (s : State)
      → IsSound env s
      → IsValid env.formats (changed s.subscriptions o)
      → IsSound env (with_subscriptions o s).1
  unfolding with_subscriptions
  with_subscriptions-IsSound none s h v = h
  with_subscriptions-IsSound (some (c, out)) s (t, u, d, q, m) v = (t, v, d, q, m)

  confirmed-Keeps : (subscription : Fields) → Keeps env (confirmed env subscription)
  unfolding confirmed drawn
  confirmed-Keeps subscription s h =
      with_subscriptions-IsSound _ (record s { tick = suc s.tick }) h
        (update-IsValid env.formats (env.sources.timestamp s.tick) s.subscriptions
          (int_field env.platform subscription "id") _ h.1)

  pub confirm_subscription-Keeps :
      (ctx : Request) (request_id : String) → Keeps env (confirm_subscription env ctx request_id)
  unfolding confirm_subscription confirm_token
  confirm_subscription-Keeps ctx request_id =
      let token = param ctx.query "Token" in
      with_topic-Keeps ctx _ request_id _ (λ topic s h.
        elim (Bool-cases (env.texts.trim_space token == "")) [
          | inl missing ↦ rw (missing, confirm_token) h
          | inr given ↦ elim (Option-cases (with_token env topic token s)) [
            | inl absent ↦ rw (given, absent, confirm_token) h
            | inr (subscription, found) ↦
                rw (given, found, confirm_token) (confirmed-Keeps subscription s h)
          ]
        ])
