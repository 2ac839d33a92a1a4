-- ===== src/Sns/Handler/Requests.antt =====
-- `publish` of internal/services/aws/sns/handler.go, and `Handle` over histories of requests to both
-- handlers, which share the queues and the messages.
use emulate.Prelude.{
  inl, inr, List, [], ◌∷◌, All, ℕ, suc, Option-cases, Bool-cases, String, string_eq, ◌==◌,
}
use emulate.Prelude.Assoc.{lookup}
use emulate.Store.Value.{Fields}
use emulate.Store.Collection.Invariant.{insert-IsValid}
use emulate.Protocols.Errors.{ErrorResponse}
use emulate.Sqs.Fields.{bool_field}
use emulate.Sns.Fields.{string_field}
use emulate.Sns.State.{Env, State, Request, drawn, find_sqs_queue, subscriptions_of}
use emulate.Sns.Topics.{list_topics, get_topic_attributes}
use emulate.Sns.Topics.Tagging.{
  tag_resource, untag_resource, list_tags_for_resource, remove_topic_permission,
}
use emulate.Sns.Subscriptions.{list_subscriptions, list_subscriptions_by_topic}
use emulate.Sns.Envelope.{Message}
use emulate.Sns.Publish.{
  insert_delivery, deliver_to_queue, deliver_body, deliver_stub, deliver_to_subscription,
  deliver_each, structure_error, published, publish_message, publish_to, publish,
}
use emulate.Sqs.Handler.Requests.{All-lookup}
use emulate.Sns.Handler.{operations, chosen_request_id, handle}
use emulate.Sns.Handler.Invariant.{
  IsSound, Keeps, if-IsSound, with_topic-Keeps, update_topic-IsSound, create_topic-Keeps,
  delete_topic-Keeps, set_topic_attributes-Keeps, add_permission-Keeps, subscribe-Keeps,
  unsubscribe-Keeps, confirm_subscription-Keeps,
}

module _ (env : Env) where
  insert_delivery-IsSound :
      (record_ : Fields) (s : State) → IsSound env s → IsSound env (insert_delivery env record_ s)
  unfolding insert_delivery
  insert_delivery-IsSound record_ s (t, u, d, q, m) =
      (t, u, insert-IsValid env.formats (env.sources.timestamp s.tick) s.deliveries record_ d, q, m)

  deliver_body-Keeps :
      (ctx : Request) (topic subscription : Fields) (message : Message) (queue : Fields)
      → Keeps env (deliver_body env ctx topic subscription message queue)
  unfolding deliver_body deliver_to_queue
  deliver_body-Keeps ctx topic subscription message queue s (t, u, d, q, m) =
      if-IsSound env _ _ _ (t, u, d, q, m)
        (insert_delivery-IsSound _ _ (
          t,
          u,
          d,
          q,
          insert-IsValid env.formats (env.sources.timestamp s.tick) s.sqs_messages _ m,
        ))

  deliver_to_subscription-Keeps :
      (ctx : Request) (topic : Fields) (message : Message) (subscription : Fields)
      → Keeps env (deliver_to_subscription env ctx topic message subscription)
  unfolding deliver_to_subscription deliver_stub
  deliver_to_subscription-Keeps ctx topic message subscription s h =
      let endpoint = string_field env.platform subscription "endpoint" in
      elim (Bool-cases (string_field env.platform subscription "protocol" == "sqs")) [
        | inl sqs ↦ elim (Option-cases (find_sqs_queue env endpoint s)) [
          | inl absent ↦ rw (sqs, absent, deliver_to_subscription) h
          | inr (queue, found) ↦
              rw (sqs, found, deliver_to_subscription)
                (deliver_body-Keeps ctx topic subscription message queue s h)
        ]
        | inr other ↦ rw (other, deliver_to_subscription) (insert_delivery-IsSound _ s h)
      ]

  deliver_each-IsSound :
      (ctx : Request) (topic : Fields) (message : Message) (subscriptions : List Fields)
      (delivered : ℕ) (s : State)
      → IsSound env s
      → IsSound env (deliver_each env ctx topic message subscriptions (delivered, s)).1
  unfolding deliver_each
  deliver_each-IsSound ctx topic message [] delivered s h = h
  deliver_each-IsSound ctx topic message (subscription ∷ rest) delivered s h =
      let kept = deliver_to_subscription-Keeps ctx topic message subscription s h in
      elim (Bool-cases (bool_field subscription "confirmed")) [
        | inl confirmed ↦
            rw (confirmed, deliver_each) (deliver_each-IsSound ctx topic message rest _ _ kept)
        | inr pending ↦
            rw (pending, deliver_each) (deliver_each-IsSound ctx topic message rest delivered s h)
      ]

  publish-Keeps : (ctx : Request) (request_id : String) → Keeps env (publish env ctx request_id)
  unfolding publish publish_to publish_message
  publish-Keeps ctx request_id = with_topic-Keeps env ctx _ request_id _ (λ topic s h.
      let message = published env ctx s.tick in
      let arn = string_field env.platform topic "arn" in
      let kept = insert_delivery-IsSound _ _ (
        deliver_each-IsSound ctx topic message (subscriptions_of env arn s) 0
          (record s { tick = suc s.tick }) h) in
      elim (Bool-cases (message.text == "")) [
        | inl empty ↦ rw (empty, publish_to) h
        | inr given ↦ elim (Option-cases (structure_error env message.structure message.text)) [
          | inl fine ↦ rw (given, fine, publish_to) kept
          | inr (problem, wrong) ↦ rw (given, wrong, publish_to) h
        ]
      ])

  abbrev KeepsAll : (Request → String → State → ErrorResponse × State) → Type 0
  KeepsAll operation = (ctx : Request) (request_id : String) → Keeps env (operation ctx request_id)

  operations-Keeps : All (λ entry. KeepsAll entry.1) (operations env)
  unfolding operations list_topics get_topic_attributes tag_resource untag_resource
      list_tags_for_resource remove_topic_permission list_subscriptions list_subscriptions_by_topic
  operations-Keeps =
      let on_topic =
        λ (operation : Fields → State → ErrorResponse × State) (ctx : Request)
            (arn request_id : String) (keeps : (topic : Fields) → Keeps env (operation topic)).
          with_topic-Keeps env ctx arn request_id operation keeps in
      (
        create_topic-Keeps env,
        (
          delete_topic-Keeps env,
          (
            λ c r s h. h,
            (
              λ c r. on_topic _ c _ r (λ topic s h. h),
              (
                set_topic_attributes-Keeps env,
                (
                  λ c r.
                      on_topic _ c _ r (λ topic s h. update_topic-IsSound env topic "tags" _ s h),
                  (
                    λ c r.
                        on_topic _ c _ r (λ topic s h. update_topic-IsSound env topic "tags" _ s h),
                    (
                      λ c r. on_topic _ c _ r (λ topic s h. h),
                      (
                        subscribe-Keeps env,
                        (
                          unsubscribe-Keeps env,
                          (
                            λ c r s h. h,
                            (
                              λ c r. on_topic _ c _ r (λ topic s h. h),
                              (
                                publish-Keeps,
                                (
                                  confirm_subscription-Keeps env,
                                  (
                                    add_permission-Keeps env,
                                    (
                                      λ c r. on_topic _ c _ r (λ topic s h.
                                          update_topic-IsSound env topic "permissions" _ s h),
                                      tt,
                                    ),
                                  ),
                                ),
                              ),
                            ),
                          ),
                        ),
                      ),
                    ),
                  ),
                ),
              ),
            ),
          ),
        ),
      )

  chosen_request_id-Keeps : (ctx : Request) → Keeps env (chosen_request_id env ctx)
  unfolding chosen_request_id drawn
  chosen_request_id-Keeps ctx s h = elim (Bool-cases (ctx.request_id == "")) [
    | inl missing ↦ rw (missing, chosen_request_id) h
    | inr given ↦ rw (given, chosen_request_id) h
  ]

  -- Whatever a request asks for, `Handle` keeps all collections valid.
  pub handle-Keeps : (ctx : Request) → Keeps env (handle env ctx)
  unfolding handle
  handle-Keeps ctx s h =
      let chosen = chosen_request_id-Keeps ctx s h in
      elim (Option-cases (lookup ctx.action (operations env))) [
        | inl unknown ↦ rw (unknown, handle) chosen
        | inr (operation, found) ↦
            rw (found, handle)
              (All-lookup KeepsAll (operations env) ctx.action operation operations-Keeps found ctx
                (chosen_request_id env ctx s).0 (chosen_request_id env ctx s).1 chosen)
      ]
