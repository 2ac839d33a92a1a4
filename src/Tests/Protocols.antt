-- ===== src/Tests/Protocols.antt =====
-- The theorems of the two protocols of the SQS handler at concrete inputs.
use emulate.Prelude.{◌≡◌, refl, none, some, true, [], ◌∷◌, filter, contains, string_eq}
use emulate.Prelude.Int.{pos, int_eq}
use emulate.Prelude.Assoc.{lookup, put}
use emulate.Prelude.Sort.{sort}
use emulate.Store.Value.{Fields, str, int, objects, end, field, get_field, clone_record}
use emulate.Store.Collection.{get, find_by, all_records, copy_at}
use emulate.Sqs.Fields.{scalar_string}
use emulate.Sqs.Input.{json_params, add_inputs, add_input}
use emulate.Sqs.Params.{Params, param}
use emulate.Sqs.State.{State, first, find_queue_by_url}
use emulate.Sqs.Messages.Removal.{message_left, queue_left, get-purge_queue}
use emulate.Sqs.Delivery.Taken.{message_items, receive_message_json-eq}
use emulate.Sqs.Response.{json_response, queue_not_found_json, with_request_id}
use emulate.Sqs.Queues.{
  create_queue, delete_queue, get_queue_attributes, get_queue_url, list_queues, purge_queue,
  set_queue_attributes,
}
use emulate.Sqs.Queues.Tags.{
  list_queue_tags, list_queue_tags_json, tag_queue, tag_queue_json, untag_queue, untag_queue_json,
}
use emulate.Sqs.Queues.Json.{
  create_queue_json, delete_queue_json, get_queue_attributes_json, get_queue_url_json,
  list_queues_json, purge_queue_json, set_queue_attributes_json,
}
use emulate.Sqs.Delivery.{
  received, change_message_visibility, change_message_visibility_batch, delete_message,
  delete_message_batch, receive_message, send_message, send_message_batch,
}
use emulate.Sqs.Delivery.Json.{
  change_message_visibility_batch_json, change_message_visibility_json, delete_message_batch_json,
  delete_message_json, receive_message_json, send_message_batch_json, send_message_json,
}
use emulate.Sqs.Handler.{AwsRequestContext, chosen_request_id, handle}
use emulate.Sqs.Handler.Absent.{queue_actions, params_of, handle-absent}
use emulate.Sqs.Handler.Protocols.{SameState, protocols_agree}
use emulate.Tests.Queues.{env, sent_one, sent_one-IsSound, indexed}

-- The queue with its address, and a state with it and one message.
abbrev jobs_record : Fields
jobs_record = field "queue_name" (str "jobs") (
    field "queue_url" (str "http://localhost/sqs/123456789012/jobs")
      (field "visibility_timeout" (int (pos 30)) end))

abbrev with_jobs : State
with_jobs = record sent_one {
  queues = record {
    items = (pos 1, jobs_record) ∷ [];
    auto_id = pos 2;
    index_fields = [];
    indexes = [];
  };
}

abbrev asks : Params
asks = ("QueueUrl", "http://localhost/sqs/123456789012/jobs") ∷ []

get-purge_queue_example :
    (get env.formats (purge_queue env asks "r1" with_jobs).1.messages (pos 1)
      ≡ message_left env
          (find_queue_by_url env with_jobs (param asks "QueueUrl"))
          with_jobs
          (pos 1))
    × (get env.formats (purge_queue_json env asks with_jobs).1.messages (pos 1)
        ≡ message_left env
            (find_queue_by_url env with_jobs (param asks "QueueUrl"))
            with_jobs
            (pos 1))
    × (get env.formats (delete_queue env asks "r1" with_jobs).1.messages (pos 1)
        ≡ message_left env
            (find_queue_by_url env with_jobs (param asks "QueueUrl"))
            with_jobs
            (pos 1))
    × (get env.formats (delete_queue_json env asks with_jobs).1.messages (pos 1)
        ≡ message_left env
            (find_queue_by_url env with_jobs (param asks "QueueUrl"))
            with_jobs
            (pos 1))
    × ((purge_queue env asks "r1" with_jobs).1.queues ≡ with_jobs.queues)
    × ((purge_queue_json env asks with_jobs).1.queues ≡ with_jobs.queues)
    × (get env.formats (delete_queue env asks "r1" with_jobs).1.queues (pos 1)
        ≡ queue_left env
            (find_queue_by_url env with_jobs (param asks "QueueUrl"))
            with_jobs
            (pos 1))
    × (get env.formats (delete_queue_json env asks with_jobs).1.queues (pos 1)
        ≡ queue_left env
            (find_queue_by_url env with_jobs (param asks "QueueUrl"))
            with_jobs
            (pos 1))
get-purge_queue_example = get-purge_queue env asks "r1" with_jobs (pos 1) sent_one-IsSound.1 indexed

jobs_found : find_queue_by_url env with_jobs (param asks "QueueUrl") ≡ some jobs_record
unfolding find_queue_by_url first find_by lookup filter all_records sort get_field copy_at
    clone_record param
jobs_found = refl

receive_message_json-eq_example : receive_message_json env asks with_jobs ≡ (
  json_response 200 (
      field "Messages"
        (objects (message_items env asks (received env asks jobs_record with_jobs).0))
        end),
  (received env asks jobs_record with_jobs).1,
)
receive_message_json-eq_example = receive_message_json-eq env asks jobs_record with_jobs jobs_found

-- A request to purge a queue that there is not.
abbrev purge_other : AwsRequestContext
purge_other = record {
  is_json = true;
  action = "PurgeQueue";
  request_id = "r3";
  query = [];
  input = field "QueueUrl" (str "http://localhost/sqs/123456789012/other") end;
}

is_queue_action : contains purge_other.action queue_actions ≡ true
unfolding contains
is_queue_action = refl

other_absent : find_queue_by_url env with_jobs (param (params_of env purge_other) "QueueUrl") ≡ none
unfolding find_queue_by_url first find_by lookup filter all_records sort get_field copy_at
    clone_record param json_params add_inputs add_input put scalar_string
other_absent = refl

handle-absent_example : handle env purge_other with_jobs ≡ (
  with_request_id queue_not_found_json (chosen_request_id env purge_other with_jobs).0,
  (chosen_request_id env purge_other with_jobs).1,
)
handle-absent_example = handle-absent env purge_other with_jobs is_queue_action other_absent

protocols_agree_example :
    SameState (create_queue env asks "r1" with_jobs) (create_queue_json env asks with_jobs)
    × SameState (delete_queue env asks "r1" with_jobs) (delete_queue_json env asks with_jobs)
    × SameState (list_queues env asks "r1" with_jobs) (list_queues_json env asks with_jobs)
    × SameState (get_queue_url env asks "r1" with_jobs) (get_queue_url_json env asks with_jobs)
    × SameState
        (get_queue_attributes env asks "r1" with_jobs)
        (get_queue_attributes_json env asks with_jobs)
    × SameState
        (set_queue_attributes env asks "r1" with_jobs)
        (set_queue_attributes_json env asks with_jobs)
    × SameState (send_message env asks "r1" with_jobs) (send_message_json env asks with_jobs)
    × SameState
        (send_message_batch env asks "r1" with_jobs)
        (send_message_batch_json env asks with_jobs)
    × SameState (receive_message env asks "r1" with_jobs) (receive_message_json env asks with_jobs)
    × SameState (delete_message env asks "r1" with_jobs) (delete_message_json env asks with_jobs)
    × SameState
        (delete_message_batch env asks "r1" with_jobs)
        (delete_message_batch_json env asks with_jobs)
    × SameState
        (change_message_visibility env asks "r1" with_jobs)
        (change_message_visibility_json env asks with_jobs)
    × SameState
        (change_message_visibility_batch env asks "r1" with_jobs)
        (change_message_visibility_batch_json env asks with_jobs)
    × SameState (purge_queue env asks "r1" with_jobs) (purge_queue_json env asks with_jobs)
    × SameState (tag_queue env asks "r1" with_jobs) (tag_queue_json env asks with_jobs)
    × SameState (untag_queue env asks "r1" with_jobs) (untag_queue_json env asks with_jobs)
    × SameState (list_queue_tags env asks "r1" with_jobs) (list_queue_tags_json env asks with_jobs)
protocols_agree_example = protocols_agree env asks "r1" with_jobs
