-- ===== src/Sqs/Queues/Tags.antt =====
-- The tags of queues in internal/services/aws/sqs/handler.go.
use emulate.Prelude.{suc, Option, some, List, [], ◌∷◌, String, string_eq, ◌==◌, if◌then◌else◌}
use emulate.Store.Value.{Fields, str, object, row, end, field, set_field}
use emulate.Store.Collection.{update_func}
use emulate.Protocols.Errors.{ErrorResponse}
use emulate.Sqs.Fields.{Platform, copy_record, record_field, int_field, scalar_string}
use emulate.Sqs.Params.{Params, indexed_tags, indexed_names}
use emulate.Sqs.State.{Env, State}
use emulate.Sqs.Response.{
  plain_answer, answer, queue_not_found, queue_not_found_json, json_response,
}
use emulate.Sqs.Response.Results.{queue_tags_xml, tags_map}
use emulate.Sqs.Queues.{with_queues, with_queue}

-- delete(tags, name)
unfoldable pub drop_field : String → Fields → Fields
drop_field name end = end
drop_field name (field k v fs) =
    let rest = drop_field name fs in if name == k then rest else field k v rest

unfoldable pub drop_fields : List String → Fields → Fields
drop_fields [] tags = tags
drop_fields (name ∷ names) tags = drop_fields names (drop_field name tags)

-- tags[name] = scalarString(value), for each
unfoldable pub add_tags : Platform → Fields → Fields → Fields
add_tags go end tags = tags
add_tags go (field name value additions) tags =
    add_tags go additions (set_field name (str (scalar_string go value)) tags)

-- The patch with the tags.
unfoldable pub tags_patch : (Fields → Fields) → Fields → Option Fields
tags_patch change current =
    some (field "tags" (row (change (copy_record (record_field current "tags")))) end)

module _ (env : Env) where
  unfoldable pub change_tags : (Fields → Fields) → Fields → State → State
  change_tags change queue s =
      with_queues
        (update_func env.formats (env.sources.timestamp s.tick) s.queues
          (int_field env.platform queue "id") (some (tags_patch change)))
        (record s { tick = suc s.tick })

  -- `mergeQueueTags`
  unfoldable pub merge_queue_tags : Fields → Fields → State → State
  merge_queue_tags queue additions = change_tags (add_tags env.platform additions) queue

  -- `removeQueueTags`
  unfoldable pub remove_queue_tags : Fields → List String → State → State
  remove_queue_tags queue names = change_tags (drop_fields names) queue

  -- `tagQueue`
  unfoldable pub tag_queue : Params → String → State → ErrorResponse × State
  tag_queue params request_id = with_queue env (queue_not_found request_id) params (λ queue s. (
    plain_answer "TagQueue" request_id,
    merge_queue_tags queue (indexed_tags env.platform params "Tag") s,
  ))

  -- `untagQueue`
  unfoldable pub untag_queue : Params → String → State → ErrorResponse × State
  untag_queue params request_id = with_queue env (queue_not_found request_id) params (λ queue s. (
    plain_answer "UntagQueue" request_id,
    remove_queue_tags queue (indexed_names env.platform params "TagKey") s,
  ))

  -- `listQueueTags`
  unfoldable pub list_queue_tags : Params → String → State → ErrorResponse × State
  list_queue_tags params request_id = with_queue env (queue_not_found request_id) params (λ queue s.
      (
        answer "ListQueueTags" (queue_tags_xml env.platform (record_field queue "tags")) request_id,
        s,
      ))

  -- `tagQueueJSON`
  unfoldable pub tag_queue_json : Params → State → ErrorResponse × State
  tag_queue_json params = with_queue env queue_not_found_json params (λ queue s.
      (json_response 200 end, merge_queue_tags queue (indexed_tags env.platform params "Tag") s))

  -- `untagQueueJSON`
  unfoldable pub untag_queue_json : Params → State → ErrorResponse × State
  untag_queue_json params = with_queue env queue_not_found_json params (λ queue s. (
    json_response 200 end,
    remove_queue_tags queue (indexed_names env.platform params "TagKey") s,
  ))

  -- `listQueueTagsJSON`
  unfoldable pub list_queue_tags_json : Params → State → ErrorResponse × State
  list_queue_tags_json params = with_queue env queue_not_found_json params (λ queue s. (
    json_response 200
        (field "Tags" (object (tags_map env.platform (record_field queue "tags"))) end),
    s,
  ))
