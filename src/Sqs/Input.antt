-- ===== src/Sqs/Input.antt =====
-- `jsonParams` of internal/services/aws/sqs/handler.go: the input of the JSON protocol as the
-- parameters of the query protocol. The order of a record's fields is the one in which `range`
-- meets them.
use emulate.Prelude.{
  ℕ, suc, Option, none, some, List, [], ◌∷◌, ◌||◌, String, string_eq, ◌==◌, if◌then◌else◌,
}
use emulate.Prelude.Assoc.{put}
use emulate.Store.Value.{
  Value, Fields, Items, object, array, texts, end, field, no_items, item, get_or_nil,
}
use emulate.Sqs.Fields.{Platform, concat, sorted_record_keys, scalar_string}
use emulate.Sqs.Params.{Params, numbered}

-- The prefix that `addJSONBatchEntries` uses for the action.
unfoldable pub entry_prefix : String → Option String
entry_prefix action =
    if action == "SendMessageBatch"
    then some "SendMessageBatchRequestEntry"
    else if action == "DeleteMessageBatch"
    then some "DeleteMessageBatchRequestEntry"
    else if action == "ChangeMessageVisibilityBatch"
    then some "ChangeMessageVisibilityBatchRequestEntry"
    else none

module _ (go : Platform) where
  -- params[prefix + name] = value
  unfoldable pub put_at : String → String → String → Params → Params
  put_at prefix name value params = put (concat (prefix ∷ name ∷ [])) value params

  -- The loop of `addJSONMessageAttributes`, in which a value that is no object has no number.
  unfoldable pub add_message_attributes : String → Fields → List String → ℕ → Params → Params
  add_message_attributes prefix values [] index params = params
  add_message_attributes prefix values (name ∷ names) index params =
      let base = numbered go prefix index in
      let attribute = λ (attr : Fields) (key : String). scalar_string go (get_or_nil key attr) in
      elim (get_or_nil name values) [
        | object attr ↦ add_message_attributes prefix values names (suc index) (
            put_at base ".Value.BinaryValue" (attribute attr "BinaryValue") (
              put_at base ".Value.StringValue" (attribute attr "StringValue") (
                put_at base ".Value.DataType" (attribute attr "DataType")
                  (put_at base ".Name" name params))))
        | _ ↦ add_message_attributes prefix values names index params
      ]

  -- `addJSONMessageAttributes`
  unfoldable pub add_json_message_attributes : String → Value → Params → Params
  add_json_message_attributes prefix (object values) params =
      add_message_attributes prefix values (sorted_record_keys values) 1 params
  add_json_message_attributes prefix value params = params

  -- The fields of an entry in `addJSONBatchEntries`.
  unfoldable pub add_entry : String → Fields → Params → Params
  add_entry base end params = params
  add_entry base (field name value entry) params = add_entry base entry (
      if name == "MessageAttributes"
      then add_json_message_attributes (concat (base ∷ ".MessageAttribute" ∷ [])) value params
      else put (concat (base ∷ "." ∷ name ∷ [])) (scalar_string go value) params)

  unfoldable pub add_entries : String → Items → ℕ → Params → Params
  add_entries prefix no_items index params = params
  add_entries prefix (item (object entry) items) index params =
      add_entries prefix items (suc index) (add_entry (numbered go prefix index) entry params)
  add_entries prefix (item value items) index params = add_entries prefix items (suc index) params

  -- `addJSONBatchEntries`
  unfoldable pub add_json_batch_entries : String → Value → Params → Params
  add_json_batch_entries action (array items) params = elim (entry_prefix action) [
    | none ↦ params
    | some prefix ↦ add_entries prefix items 1 params
  ]
  add_json_batch_entries action value params = params

  -- The loop of `addJSONTags`.
  unfoldable pub add_tags_at : String → Fields → List String → ℕ → Params → Params
  add_tags_at prefix values [] index params = params
  add_tags_at prefix values (key ∷ keys) index params =
      let base = numbered go prefix index in
      add_tags_at prefix values keys (suc index) (
        put_at base ".Value" (scalar_string go (get_or_nil key values))
          (put_at base ".Key" key params))

  -- `addJSONTags`
  unfoldable pub add_json_tags : String → Value → Params → Params
  add_json_tags prefix (object values) params =
      add_tags_at prefix values (sorted_record_keys values) 1 params
  add_json_tags prefix value params = params

  unfoldable pub add_items : String → Items → ℕ → Params → Params
  add_items prefix no_items index params = params
  add_items prefix (item value items) index params =
      add_items prefix items (suc index)
        (put (numbered go prefix index) (scalar_string go value) params)

  unfoldable pub add_texts : String → List String → ℕ → Params → Params
  add_texts prefix [] index params = params
  add_texts prefix (value ∷ values) index params =
      add_texts prefix values (suc index) (put (numbered go prefix index) value params)

  -- `addJSONListParams`
  unfoldable pub add_json_list_params : String → Value → Params → Params
  add_json_list_params prefix (array items) params = add_items prefix items 1 params
  add_json_list_params prefix (texts values) params = add_texts prefix values 1 params
  add_json_list_params prefix value params =
      let raw = scalar_string go value in
      if raw == "" then params else put_at prefix ".1" raw params

  -- The case Attributes of `jsonParams`, with the number of the next attribute.
  unfoldable pub add_attributes : Fields → Params × ℕ → Params × ℕ
  add_attributes end state = state
  add_attributes (field name value values) (params, index) =
      let base = numbered go "Attribute" index in
      add_attributes values
        (put_at base ".Value" (scalar_string go value) (put_at base ".Name" name params), suc index)

  unfoldable pub add_json_attributes : Value → Params × ℕ → Params × ℕ
  add_json_attributes (object values) state = add_attributes values state
  add_json_attributes value state = state

  -- A round of `jsonParams`.
  unfoldable pub add_input : String → String → Value → Params × ℕ → Params × ℕ
  add_input action key value (params, index) =
      if key == "Attributes" then add_json_attributes value (params, index) else (
        if key == "MessageAttributes"
            then add_json_message_attributes "MessageAttribute" value params
            else if key == "AttributeNames"
            then add_json_list_params "AttributeName" value params
            else if key == "MessageAttributeNames"
            then add_json_list_params "MessageAttributeName" value params
            else if key == "MessageSystemAttributeNames"
            then add_json_list_params "MessageSystemAttributeName" value params
            else if key == "Entries"
            then add_json_batch_entries action value params
            else if key == "Tags" || key == "tags"
            then add_json_tags "Tag" value params
            else if key == "TagKeys"
            then add_json_list_params "TagKey" value params
            else put key (scalar_string go value) params,
        index,
      )

  unfoldable pub add_inputs : String → Fields → Params × ℕ → Params × ℕ
  add_inputs action end state = state
  add_inputs action (field key value input) state =
      add_inputs action input (add_input action key value state)

  -- `jsonParams`
  unfoldable pub json_params : String → Fields → Params
  json_params action input = (add_inputs action input ([], 1)).0
