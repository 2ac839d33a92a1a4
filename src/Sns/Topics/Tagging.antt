-- ===== src/Sns/Topics/Tagging.antt =====
-- The tags and permissions of topics in internal/services/aws/sns/handler.go.
use emulate.Prelude.{List, [], ◌∷◌, ◌++◌, length, nat_eq, String, string_eq, ◌==◌, if◌then◌else◌}
use emulate.Store.Value.{str, rows, texts, end, field, get_or_nil}
use emulate.Protocols.Errors.{ErrorResponse}
use emulate.Sqs.Params.{param}
use emulate.Sqs.Response.{query_error}
use emulate.Sns.Fields.{rows_of, record_list, merge_tags, remove_tags, remove_permission}
use emulate.Sns.Params.{indexed_tags, indexed_names}
use emulate.Sns.State.{Env, State, Request}
use emulate.Sns.Response.{list_answer, empty_response, member_rows}
use emulate.Sns.Topics.{with_topic, update_topic}

module _ (env : Env) where
  -- `tagResource`
  unfoldable pub tag_resource : Request → String → State → ErrorResponse × State
  tag_resource ctx request_id =
      with_topic env ctx (param ctx.query "ResourceArn") request_id (λ topic s. (
        empty_response "TagResource" request_id,
        update_topic env topic "tags"
            (rows (
              rows_of (
                merge_tags env.platform (record_list (get_or_nil "tags" topic))
                  (indexed_tags env.platform ctx.query))))
            s,
      ))

  -- The keys that `untagResource` removes.
  unfoldable pub tag_keys : Request → List String
  tag_keys ctx =
      let names = indexed_names env.platform ctx.query "TagKeys" in
      if length names == 0 then indexed_names env.platform ctx.query "TagKey" else names

  -- `untagResource`
  unfoldable pub untag_resource : Request → String → State → ErrorResponse × State
  untag_resource ctx request_id =
      with_topic env ctx (param ctx.query "ResourceArn") request_id (λ topic s. (
        empty_response "UntagResource" request_id,
        update_topic env topic "tags"
            (rows (
              rows_of
                (remove_tags env.platform (record_list (get_or_nil "tags" topic)) (tag_keys ctx))))
            s,
      ))

  -- `listTagsForResource`
  unfoldable pub list_tags_for_resource : Request → String → State → ErrorResponse × State
  list_tags_for_resource ctx request_id =
      with_topic env ctx (param ctx.query "ResourceArn") request_id (λ topic s. (
        list_answer "ListTagsForResource" "Tags"
            (member_rows env.platform (record_list (get_or_nil "tags" topic))) request_id,
        s,
      ))

  -- `addPermission`
  unfoldable pub add_permission : Request → String → State → ErrorResponse × State
  add_permission ctx request_id =
      with_topic env ctx (param ctx.query "TopicArn") request_id (λ topic s.
        let label = env.texts.trim_space (param ctx.query "Label") in
        let permission = field "Label" (str label) (
          field "AWSAccountId" (texts (indexed_names env.platform ctx.query "AWSAccountId"))
            (field "ActionName" (texts (indexed_names env.platform ctx.query "ActionName")) end)) in
        if label == ""
        then (query_error "InvalidParameter" "Label is required." 400 request_id, s)
        else (
          empty_response "AddPermission" request_id,
          update_topic env topic "permissions"
              (rows (
                rows_of (
                  remove_permission env.platform (record_list (get_or_nil "permissions" topic))
                    label
                  ++ permission ∷ [])))
              s,
        ))

  -- `removePermission` of the handler
  unfoldable pub remove_topic_permission : Request → String → State → ErrorResponse × State
  remove_topic_permission ctx request_id =
      with_topic env ctx (param ctx.query "TopicArn") request_id (λ topic s. (
        empty_response "RemovePermission" request_id,
        update_topic env topic "permissions"
            (rows (
              rows_of (
                remove_permission env.platform (record_list (get_or_nil "permissions" topic))
                  (param ctx.query "Label"))))
            s,
      ))
