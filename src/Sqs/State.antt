-- ===== src/Sqs/State.antt =====
-- The state of the SQS handler and what it draws from outside: the clock and the generators of
-- internal/services/aws/sqs/handler.go (`Handler`, `nowMillis`, `generateID`,
-- `generateReceiptHandle`).
use emulate.Prelude.{
  ℕ, Option, none, some, List, [], ◌∷◌, String, ◌==◌, string_eq, nat_eq, if◌then◌else◌,
}
use emulate.Prelude.Text.{trim_right}
use emulate.Prelude.Int.{ℤ}
use emulate.Store.Value.{Fields, Formats, str}
use emulate.Store.Collection.{Collection, find_by}
use emulate.Sqs.Fields.{Platform, concat}

-- The readings, by number: of the clock in milliseconds, of the record store's clock, and what
-- the two generators give.
pub record Sources : Type 0 where
  pub now_millis : ℕ → ℤ
  pub timestamp : ℕ → String
  pub message_id : ℕ → String
  pub receipt_handle : ℕ → String

-- The fields of `Handler` that stay, and what it calls; `base_url` is what `baseURL` gives for the
-- request.
pub record Env : Type 0 where
  pub formats : Formats
  pub platform : Platform
  pub sources : Sources
  pub base_url : String
  pub account_id : String
  pub region : String

-- The collections of `Handler`, and how often something was drawn.
pub record State : Type 0 where
  pub queues : Collection
  pub messages : Collection
  pub tick : ℕ

unfoldable pub first : List Fields → Option Fields
first [] = none
first (record_ ∷ rest) = some record_

module _ (env : Env) where
  -- `findQueueByName`
  unfoldable pub find_queue_by_name : State → String → Option Fields
  find_queue_by_name s name = first (find_by env.formats s.queues "queue_name" (str name))

  -- `findQueueByURL`
  unfoldable pub find_queue_by_url : State → String → Option Fields
  find_queue_by_url s url = first (find_by env.formats s.queues "queue_url" (str url))

  -- `region`
  unfoldable pub region : String
  region = if env.region == "" then "us-east-1" else env.region

  -- `accountID`
  unfoldable pub account_id : String
  account_id = if env.account_id == "" then "123456789012" else env.account_id

  -- The address of a new queue in `createQueue`.
  unfoldable pub queue_url : String → String
  queue_url name = concat (trim_right b'/' env.base_url ∷ "/sqs/" ∷ account_id ∷ "/" ∷ name ∷ [])
