-- ===== src/Tests/Topics.antt =====
-- The theorems of the SNS handler at concrete inputs.
use emulate.Prelude.{
  ◌+◌, ◌≡◌, refl, none, true, false, List, [], ◌∷◌, filter, length, String, string_eq, arith,
}
use emulate.Prelude.Int.{pos}
use emulate.Store.Value.{Fields, str, bool, int, end, field}
use emulate.Store.Collection.{new_collection, insert, count}
use emulate.Sqs.Params.{Params}
use emulate.Sns.State.{Env, State, Request}
use emulate.Sns.Envelope.{Message}
use emulate.Sns.Publish.{deliver_each}
use emulate.Sns.Publish.Count.{HasRoom, is_stub, deliver_each-count}
use emulate.Tests.Queues.{env, start, start-IsFresh}

abbrev sns : Env
sns = record {
  formats = env.formats;
  platform = env.platform;
  texts = record {
    to_lower = λ s. s;
    trim_space = λ s. s;
    marshal = λ v. "{}";
    unmarshal_object = λ s. none;
  };
  sources = record {
    now_millis = env.sources.now_millis;
    now_text = λ tick. "now";
    timestamp = env.sources.timestamp;
    generate_id = λ prefix tick. env.sources.message_id tick;
    receipt_handle = env.sources.receipt_handle;
  };
  account_id = "";
  region = "";
}

abbrev empty : State
empty = record {
  topics = new_collection ("arn" ∷ []);
  subscriptions = new_collection ("topic_arn" ∷ []);
  deliveries = new_collection ("topic_arn" ∷ []);
  sqs_queues = start.queues;
  sqs_messages = start.messages;
  tick = 0;
}

-- A request.
abbrev asks : String → Params → Request
asks action query = record {
  action = action;
  request_id = "r";
  account_id = "";
  region = "";
  query = query;
}

abbrev message : Message
message = record { id = "m1"; subject = ""; text = "hello"; structure = ""; attributes = end }

-- A queue.
abbrev queue : Fields
queue =
    field "queue_name" (str "jobs")
      (field "arn" (str "arn:jobs") (field "max_message_size" (int (pos 100)) end))

-- The state with one queue and no message.
abbrev with_jobs : State
with_jobs = record empty { sqs_queues = (insert env.formats "now" start.queues queue).0 }

-- A queue, an address that is only noted, and a subscription that is not confirmed.
abbrev subscribers : List Fields
subscribers =
    field "protocol" (str "sqs")
      (field "endpoint" (str "arn:jobs") (field "confirmed" (bool true) end))
    ∷ field "protocol" (str "http")
        (field "endpoint" (str "http://a") (field "confirmed" (bool true) end))
    ∷ field "protocol" (str "sqs")
        (field "endpoint" (str "arn:jobs") (field "confirmed" (bool false) end))
    ∷ []

start_room : HasRoom 3 start.messages
unfolding new_collection
start_room = (start-IsFresh, 1, refl, omega arith)

deliver_each-count_example :
    count
        (deliver_each sns
          (asks "Publish" [])
          queue
          message
          subscribers
          (0, with_jobs)).1.sqs_messages
      + length (filter (is_stub sns) subscribers)
      + 0
    ≡ count with_jobs.sqs_messages
      + (deliver_each sns (asks "Publish" []) queue message subscribers (0, with_jobs)).0
deliver_each-count_example =
    deliver_each-count sns (asks "Publish" []) queue message subscribers 0 with_jobs start_room
