-- ===== src/Sns/Handler/Shared.antt =====
-- Requests to internal/services/aws/sns/handler.go and internal/services/aws/sqs/handler.go in any
-- order: both handlers work on the same queues and messages.
use emulate.Prelude.{List, [], ◌∷◌}
use emulate.Sqs.State
use emulate.Sqs.Handler
use emulate.Sqs.Handler.{AwsRequestContext}
use emulate.Sqs.Handler.Requests
use emulate.Sns.State.{Env, State, Request}
use emulate.Sns.Handler.{handle}
use emulate.Sns.Handler.Invariant.{IsSound}
use emulate.Sns.Handler.Requests.{handle-Keeps}

-- A request to one of the two handlers.
pub data Call : Type 0 where
  to_sqs : AwsRequestContext → Call
  to_sns : Request → Call

-- What the SQS handler sees of the state.
abbrev pub sqs_part : State → emulate.Sqs.State.State
sqs_part s = record { queues = s.sqs_queues; messages = s.sqs_messages; tick = s.tick }

-- The handlers of the two services, over one record store.
module _ (sqs : emulate.Sqs.State.Env) (sns : Env) where
  abbrev pub over_store : Env
  over_store = record sns { formats = sqs.formats }

  unfoldable pub perform : Call → State → State
  perform (to_sqs ctx) s =
      let t = (emulate.Sqs.Handler.handle sqs ctx (sqs_part s)).1 in
      record s { sqs_queues = t.queues; sqs_messages = t.messages; tick = t.tick }
  perform (to_sns ctx) s = (handle over_store ctx s).1

  unfoldable pub perform_all : List Call → State → State
  perform_all [] s = s
  perform_all (call ∷ calls) s = perform_all calls (perform call s)

  -- After any requests to the two handlers, in any order, all five collections are valid if they
  -- were before: topics, subscriptions and deliveries, and the queues and messages they share.
  pub perform_all-IsSound :
      (calls : List Call) (s : State)
      → IsSound over_store s
      → IsSound over_store (perform_all calls s)
  unfolding perform_all perform
  perform_all-IsSound [] s h = h
  perform_all-IsSound (to_sqs ctx ∷ calls) s (t, u, d, q, m) =
      let (q', m') = emulate.Sqs.Handler.Requests.handle-Keeps sqs ctx (sqs_part s) (q, m) in
      perform_all-IsSound calls (perform (to_sqs ctx) s) (t, u, d, q', m')
  perform_all-IsSound (to_sns ctx ∷ calls) s h =
      perform_all-IsSound calls (perform (to_sns ctx) s) (handle-Keeps over_store ctx s h)
