-- ===== src/Sns/Handler.antt =====
-- The entry of internal/services/aws/sns/handler.go: `Handle`.
pub mod Invariant
pub mod Requests
pub mod Shared
use emulate.Prelude.{
  ℕ, suc, Bool, true, false, Option, none, some, List, [], ◌∷◌, String, string_eq, ◌==◌,
  if◌then◌else◌,
}
use emulate.Prelude.Assoc.{Assoc, lookup}
use emulate.Protocols.Errors.{ErrorResponse}
use emulate.Sqs.Fields.{concat}
use emulate.Sqs.Response.{query_error, with_request_id}
use emulate.Sns.State.{Env, State, Request, drawn}
use emulate.Sns.Topics.{
  create_topic, delete_topic, list_topics, get_topic_attributes, set_topic_attributes,
}
use emulate.Sns.Topics.Tagging.{
  tag_resource, untag_resource, list_tags_for_resource, add_permission, remove_topic_permission,
}
use emulate.Sns.Subscriptions.{
  subscribe, unsubscribe, list_subscriptions, list_subscriptions_by_topic, confirm_subscription,
}
use emulate.Sns.Publish.{publish}

module _ (env : Env) where
  -- The cases of `Handle`.
  unfoldable pub operations : Assoc String (Request → String → State → ErrorResponse × State)
  operations =
      ("CreateTopic", create_topic env)
      ∷ ("DeleteTopic", delete_topic env)
      ∷ ("ListTopics", list_topics env)
      ∷ ("GetTopicAttributes", get_topic_attributes env)
      ∷ ("SetTopicAttributes", set_topic_attributes env)
      ∷ ("TagResource", tag_resource env)
      ∷ ("UntagResource", untag_resource env)
      ∷ ("ListTagsForResource", list_tags_for_resource env)
      ∷ ("Subscribe", subscribe env)
      ∷ ("Unsubscribe", unsubscribe env)
      ∷ ("ListSubscriptions", list_subscriptions env)
      ∷ ("ListSubscriptionsByTopic", list_subscriptions_by_topic env)
      ∷ ("Publish", publish env)
      ∷ ("ConfirmSubscription", confirm_subscription env)
      ∷ ("AddPermission", add_permission env)
      ∷ ("RemovePermission", remove_topic_permission env)
      ∷ []

  -- The request's id, or a new one.
  unfoldable pub chosen_request_id : Request → State → String × State
  chosen_request_id ctx s =
      if ctx.request_id == ""
      then (env.sources.generate_id "req" s.tick, drawn s)
      else (ctx.request_id, s)

  -- `Handle`
  unfoldable pub handle : Request → State → ErrorResponse × State
  handle ctx s =
      let chosen = chosen_request_id ctx s in
      let done : ErrorResponse × State = elim (lookup ctx.action operations) [
        | none ↦ (
          query_error "InvalidAction"
              (concat ("The action " ∷ ctx.action ∷ " is not valid for this endpoint." ∷ [])) 400
              chosen.0,
          chosen.1,
        )
        | some operation ↦ operation ctx chosen.0 chosen.1
      ] in
      (with_request_id done.0 chosen.0, done.1)
