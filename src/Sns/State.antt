-- ===== src/Sns/State.antt =====
-- The state of internal/services/aws/sns/handler.go (`Handler`), what it draws from outside, and how
-- it finds topics, subscriptions and queues.
use emulate.Prelude.{
  ℕ, suc, Bool, ◌&&◌, ◌||◌, Option, List, [], ◌∷◌, filter, String, string_eq, ◌==◌,
}
use emulate.Prelude.Int.{ℤ}
use emulate.Prelude.Assoc.{Assoc}
use emulate.Store.Value.{Value, Fields, Formats, str}
use emulate.Store.Collection.{Collection, find_by, all_records}
use emulate.Sqs.Fields.{Platform, concat}
use emulate.Sqs.Params.{Params}
use emulate.Sqs.State.{first}
use emulate.Sns.Fields.{string_field, first_non_empty}

-- What the handler takes from the packages strings and encoding/json, beside `Platform`:
-- `unmarshal_object` gives the members of a JSON object, each with its text where it is a string.
pub record Texts : Type 0 where
  pub to_lower : String → String
  pub trim_space : String → String
  pub marshal : Value → String
  pub unmarshal_object : String → Option (Assoc String (Option String))

-- The readings, by number: of the clock in milliseconds and as RFC 3339, of the record store's
-- clock, and what the two generators give.
pub record Sources : Type 0 where
  pub now_millis : ℕ → ℤ
  pub now_text : ℕ → String
  pub timestamp : ℕ → String
  pub generate_id : String → ℕ → String
  pub receipt_handle : ℕ → String

pub record Env : Type 0 where
  pub formats : Formats
  pub platform : Platform
  pub texts : Texts
  pub sources : Sources
  pub account_id : String
  pub region : String

-- What is read of gateway.AwsRequestContext.
pub record Request : Type 0 where
  pub action : String
  pub request_id : String
  pub account_id : String
  pub region : String
  pub query : Params

-- The collections of `Handler`, and how often something was drawn.
pub record State : Type 0 where
  pub topics : Collection
  pub subscriptions : Collection
  pub deliveries : Collection
  pub sqs_queues : Collection
  pub sqs_messages : Collection
  pub tick : ℕ

-- One more draw.
unfoldable pub drawn : State → State
drawn s = record s { tick = suc s.tick }

module _ (env : Env) where
  -- `accountID`
  unfoldable pub account_id : Request → String
  account_id ctx = first_non_empty (ctx.account_id ∷ env.account_id ∷ "123456789012" ∷ [])

  -- `region`
  unfoldable pub region : Request → String
  region ctx = first_non_empty (ctx.region ∷ env.region ∷ "us-east-1" ∷ [])

  -- `sameScope`
  unfoldable pub same_scope : Request → Fields → Bool
  same_scope ctx record_ =
      string_field env.platform record_ "account_id" == account_id ctx
      && string_field env.platform record_ "region" == region ctx

  -- `findTopicByName`
  unfoldable pub find_topic_by_name : Request → String → State → Option Fields
  find_topic_by_name ctx name s =
      first (filter (same_scope ctx) (find_by env.formats s.topics "topic_name" (str name)))

  -- `findTopicByARN`
  unfoldable pub find_topic_by_arn : Request → String → State → Option Fields
  find_topic_by_arn ctx arn s =
      first (filter (same_scope ctx) (find_by env.formats s.topics "arn" (str arn)))

  -- `findSubscriptionByARN`
  unfoldable pub find_subscription_by_arn : Request → String → State → Option Fields
  find_subscription_by_arn ctx arn s =
      first
        (filter (same_scope ctx) (find_by env.formats s.subscriptions "subscription_arn" (str arn)))

  -- `findSQSQueue`
  unfoldable pub find_sqs_queue : String → State → Option Fields
  find_sqs_queue endpoint s = first (
      filter
        (λ queue.
          string_field env.platform queue "arn" == endpoint
          || string_field env.platform queue "queue_url" == endpoint)
        (all_records s.sqs_queues))

  -- `scopedTopics`
  unfoldable pub scoped_topics : Request → State → List Fields
  scoped_topics ctx s = filter (same_scope ctx) (all_records s.topics)

  -- `scopedSubscriptions`
  unfoldable pub scoped_subscriptions : Request → State → List Fields
  scoped_subscriptions ctx s = filter (same_scope ctx) (all_records s.subscriptions)

  -- The subscriptions of a topic: FindBy("topic_arn", arn).
  unfoldable pub subscriptions_of : String → State → List Fields
  subscriptions_of arn s = find_by env.formats s.subscriptions "topic_arn" (str arn)

-- `topicARN`
unfoldable pub topic_arn : String → String → String → String
topic_arn region account_id name =
    concat ("arn:aws:sns:" ∷ region ∷ ":" ∷ account_id ∷ ":" ∷ name ∷ [])
