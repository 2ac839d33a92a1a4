-- ===== src/Sqs/Attributes.antt =====
-- Attributes in internal/services/aws/sqs/handler.go: those of a queue, and the selection of those
-- of a message.
use emulate.Prelude.{
  ℕ, suc, ◌++◌, none, some, List, [], ◌∷◌, ◌||◌, ◌&&◌, nat_eq, not, filter, contains, length,
  String, string_eq, ◌==◌, if◌then◌else◌,
}
use emulate.Prelude.Int.{ℤ, pos, int_less, int_eq}
use emulate.Prelude.Text.{has_prefix, has_suffix, trim_suffix, text_order}
use emulate.Prelude.Sort.{sort}
use emulate.Prelude.Assoc.{Assoc, lookup, put, keys}
use emulate.Store.Value.{Value, Fields, str, int, bool, row, end, field, set_field}
use emulate.Sqs.Fields.{
  Platform, concat, copy_record, record_field, record_value, string_field, int_field, int64_field,
  int_param, bool_field, scalar_string,
}
use emulate.Sqs.Params.{Params, indexed_names, put_each}
use emulate.Sqs.Response.{NameValue}
use emulate.Sqs.Response.Results.{format_bool}
use emulate.Sqs.State.{Env, State}
use emulate.Sqs.Messages.{messages_of}

-- The entries of a record.
unfoldable pub entries : Fields → Assoc String Value
entries end = []
entries (field k v fs) = (k, v) ∷ entries fs

-- queue[key] = value, for each entry of the patch
unfoldable pub assign : Fields → Fields → Fields
assign queue end = queue
assign queue (field k v patch) = assign (set_field k v queue) patch

-- The round for one name that was asked for, in the three loops that select attributes.
unfoldable pub choose {ℓ} : {V : Type ℓ} → Assoc String V → String → Assoc String V → Assoc String V
choose attrs request selected =
    if request == "All" || request == ".*"
    then put_each attrs selected
    else if has_suffix request ".*"
    then put_each (filter (λ entry. has_prefix entry.0 (trim_suffix request ".*")) attrs) selected
    else elim (lookup request attrs) [ none ↦ selected | some value ↦ put request value selected ]

unfoldable pub choose_each {ℓ} :
    {V : Type ℓ} → Assoc String V → List String → Assoc String V → Assoc String V
choose_each attrs [] selected = selected
choose_each attrs (request ∷ requested) selected =
    choose_each attrs requested (choose attrs request selected)

-- `queueAttributeOrder`
abbrev pub queue_attribute_order : List String
queue_attribute_order =
    "QueueArn" ∷ "ApproximateNumberOfMessages" ∷ "ApproximateNumberOfMessagesNotVisible"
    ∷ "VisibilityTimeout" ∷ "MaximumMessageSize" ∷ "MessageRetentionPeriod" ∷ "DelaySeconds"
    ∷ "ReceiveMessageWaitTimeSeconds" ∷ "FifoQueue" ∷ []

-- The rows of the names that have a value.
unfoldable pub present_rows : Params → List String → List NameValue
present_rows attrs [] = []
present_rows attrs (name ∷ names) =
    let rest = present_rows attrs names in
    elim (lookup name attrs) [
      | none ↦ rest
      | some value ↦ record { name = name; value = value } ∷ rest
    ]

-- `orderedQueueAttributes`: a name was seen where it is in the order, as it has a value.
unfoldable pub ordered_queue_attributes : Params → List NameValue
ordered_queue_attributes attrs =
    present_rows attrs queue_attribute_order
    ++ present_rows attrs (
        sort ⦃o = text_order⦄
          (filter (λ name. not (contains name queue_attribute_order)) (keys attrs)))

-- `nameValuesMap`
unfoldable pub name_values_map : List NameValue → Fields → Fields
name_values_map [] result = result
name_values_map (value ∷ values) result =
    name_values_map values (set_field value.name (str value.value) result)

module _ (go : Platform) where
  -- A number that an attribute sets.
  unfoldable pub read_into : Fields → String → Fields → Fields → String → Fields × Fields
  read_into queue value patch extra key =
      (set_field key (int (int_param go value (int_field go queue key))) patch, extra)

  -- The case of an attribute of `queueAttributePatch`, with the patch and the extra attributes.
  unfoldable pub patch_attribute : Fields → String → String → Fields × Fields → Fields × Fields
  patch_attribute queue name value (patch, extra) =
      if name == "VisibilityTimeout"
      then read_into queue value patch extra "visibility_timeout"
      else if name == "DelaySeconds"
      then read_into queue value patch extra "delay_seconds"
      else if name == "MaximumMessageSize"
      then read_into queue value patch extra "max_message_size"
      else if name == "MessageRetentionPeriod"
      then read_into queue value patch extra "message_retention_period"
      else if name == "ReceiveMessageWaitTimeSeconds"
      then read_into queue value patch extra "receive_message_wait_time"
      else if name == "FifoQueue"
      then (set_field "fifo" (bool (go.equal_fold value "true")) patch, extra)
      else if name == ""
      then (patch, extra)
      else (patch, set_field name (str value) extra)

  unfoldable pub patch_each : Fields → Params → Fields × Fields → Fields × Fields
  patch_each queue [] patches = patches
  patch_each queue ((name, value) ∷ attrs) patches =
      patch_each queue attrs (patch_attribute queue name value patches)

  -- `queueAttributePatch`
  unfoldable pub queue_attribute_patch : Fields → Params → Fields
  queue_attribute_patch queue attrs =
      let extra = record_field queue "extra_attributes" in
      let patches = patch_each queue attrs (end, copy_record extra) in
      if length (entries patches.1) == 0 && length (entries extra) == 0
      then patches.0
      else set_field "extra_attributes" (row patches.1) patches.0

  -- `newQueueRecord`
  unfoldable pub new_queue_record : String → String → String → String → Params → Fields → Fields
  new_queue_record queue_name queue_url region account_id attrs tags =
      let queue = field "queue_name" (str queue_name) (
        field "queue_url" (str queue_url) (
          field "arn"
            (str (concat ("arn:aws:sqs:" ∷ region ∷ ":" ∷ account_id ∷ ":" ∷ queue_name ∷ [])))
            (field "visibility_timeout" (int (pos 30)) (
              field "delay_seconds" (int (pos 0)) (
                field "max_message_size" (int (pos 262144)) (
                  field "message_retention_period" (int (pos 345600)) (
                    field "receive_message_wait_time" (int (pos 0)) (
                      field "fifo" (bool (has_suffix queue_name ".fifo")) (
                        field "tags" (row tags) (field "extra_attributes" (row end) end)))))))))) in
      assign queue (queue_attribute_patch queue attrs)

  -- `selectedQueueAttributes`
  unfoldable pub selected_queue_attributes : Params → Params → List NameValue
  selected_queue_attributes attrs params =
      let requested = indexed_names go params "AttributeName" in
      if length requested == 0
      then ordered_queue_attributes attrs
      else ordered_queue_attributes (choose_each attrs requested [])

  -- attrs[name] = scalarString(value), for each
  unfoldable pub put_scalars : Fields → Params → Params
  put_scalars end attrs = attrs
  put_scalars (field name value fs) attrs = put_scalars fs (put name (scalar_string go value) attrs)

  -- The visible messages and those in flight, counted in `queueAttributeValues`.
  unfoldable pub visible_counts : ℤ → List Fields → ℕ × ℕ
  visible_counts now [] = (0, 0)
  visible_counts now (message ∷ rest) =
      let counts = visible_counts now rest in
      if int_less now (int64_field go message "visible_after")
      then (counts.0, suc counts.1)
      else (suc counts.0, counts.1)

  -- `systemAttributes`
  unfoldable pub system_attributes : Fields → Params
  system_attributes message =
      let first = int64_field go message "first_receive_timestamp" in
      let sent = int64_field go message "sent_timestamp" in
      ("SenderId", string_field go (record_field message "attributes") "SenderId")
      ∷ ("SentTimestamp", go.itoa sent)
      ∷ ("ApproximateReceiveCount", go.itoa (int_field go message "receive_count"))
      ∷ ("ApproximateFirstReceiveTimestamp", go.itoa (if first == pos 0 then sent else first))
      ∷ []

  -- `selectedSystemAttributes`
  unfoldable pub selected_system_attributes : Fields → Params → Params
  selected_system_attributes message params =
      let requested =
        indexed_names go params "AttributeName"
        ++ indexed_names go params "MessageSystemAttributeName" in
      if length requested == 0 then [] else choose_each (system_attributes message) requested []

-- `cloneAttributeValue`
unfoldable pub clone_attribute_value : Value → Value
clone_attribute_value value = row (copy_record (record_value value))

-- The entries with their values copied.
unfoldable pub cloned_entries : Fields → Assoc String Value
cloned_entries end = []
cloned_entries (field k v fs) = (k, clone_attribute_value v) ∷ cloned_entries fs

-- `selectedMessageAttributes`
unfoldable pub selected_message_attributes : Platform → Fields → Params → Assoc String Value
selected_message_attributes go message params =
    let attrs = cloned_entries (record_field message "message_attributes") in
    if length attrs == 0
    then []
    else choose_each attrs (indexed_names go params "MessageAttributeName") []

-- `queueAttributeValues`, with the time that was read.
unfoldable pub queue_attribute_values : Env → ℤ → Fields → State → Params
queue_attribute_values env now queue s =
    let go = env.platform in
    let counts = visible_counts go now (messages_of env queue s) in
    put_scalars go (record_field queue "extra_attributes") (
      ("QueueArn", string_field go queue "arn")
      ∷ ("ApproximateNumberOfMessages", go.itoa (pos counts.0))
      ∷ ("ApproximateNumberOfMessagesNotVisible", go.itoa (pos counts.1))
      ∷ ("VisibilityTimeout", go.itoa (int_field go queue "visibility_timeout"))
      ∷ ("MaximumMessageSize", go.itoa (int_field go queue "max_message_size"))
      ∷ ("MessageRetentionPeriod", go.itoa (int_field go queue "message_retention_period"))
      ∷ ("DelaySeconds", go.itoa (int_field go queue "delay_seconds"))
      ∷ ("ReceiveMessageWaitTimeSeconds", go.itoa (int_field go queue "receive_message_wait_time"))
      ∷ ("FifoQueue", format_bool (bool_field queue "fifo"))
      ∷ [])
