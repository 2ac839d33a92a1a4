-- ===== src/Sqs/Response/Results.antt =====
-- The results in the answers of internal/services/aws/sqs/handler.go: of batches and of tags, in XML
-- and in JSON.
use emulate.Prelude.{Bool, true, false, List, [], ◌∷◌, String, string_eq, ◌==◌, if◌then◌else◌}
use emulate.Prelude.Text.{trim_right}
use emulate.Store.Value.{
  Fields, Rows, str, bool, end, field, no_rows, next_row, set_field, get_or_nil,
}
use emulate.Sqs.Fields.{Platform, concat, xml_escape, sorted_record_keys, scalar_string}
use emulate.Sqs.Messages.{BatchSendResult}
use emulate.Sqs.Response.{BatchResultError}

-- strconv.FormatBool
unfoldable pub format_bool : Bool → String
format_bool true = "true"
format_bool false = "false"

-- A text between two others, where it is not empty.
unfoldable pub between : String → String → String → String
between before after value = if value == "" then "" else concat (before ∷ value ∷ after ∷ [])

-- A round of `writeBatchErrorsXML`.
unfoldable pub batch_error_row : BatchResultError → String
batch_error_row failure = concat (
    "    <BatchResultErrorEntry><Id>"
    ∷ xml_escape failure.id
    ∷ "</Id><SenderFault>"
    ∷ format_bool failure.sender_fault
    ∷ "</SenderFault><Code>"
    ∷ xml_escape failure.code
    ∷ "</Code><Message>"
    ∷ xml_escape failure.message
    ∷ "</Message></BatchResultErrorEntry>\n"
    ∷ [])

-- `writeBatchErrorsXML`
unfoldable pub batch_errors_xml : List BatchResultError → String
batch_errors_xml [] = ""
batch_errors_xml (failure ∷ failed) =
    concat (batch_error_row failure ∷ batch_errors_xml failed ∷ [])

-- A round of the loop of `batchSendXML`.
unfoldable pub send_row : BatchSendResult → String
send_row result = concat (
    "    <SendMessageBatchResultEntry><Id>"
    ∷ xml_escape result.id
    ∷ "</Id><MessageId>"
    ∷ xml_escape result.message_id
    ∷ "</MessageId><MD5OfMessageBody>"
    ∷ result.body_md5
    ∷ "</MD5OfMessageBody>"
    ∷ between "<MD5OfMessageAttributes>" "</MD5OfMessageAttributes>" result.attributes_md5
    ∷ "</SendMessageBatchResultEntry>\n"
    ∷ [])

unfoldable pub send_rows : List BatchSendResult → String
send_rows [] = ""
send_rows (result ∷ results) = concat (send_row result ∷ send_rows results ∷ [])

-- `batchSendXML`
unfoldable pub batch_send_xml : List BatchSendResult → List BatchResultError → String
batch_send_xml successful failed =
    trim_right 10 (concat (send_rows successful ∷ batch_errors_xml failed ∷ []))

-- The loop over the ids of `batchDeleteXML` and of `batchVisibilityXML`.
unfoldable pub id_rows : String → List String → String
id_rows entry [] = ""
id_rows entry (id ∷ ids) =
    concat (
      "    <"
      ∷ entry
      ∷ "><Id>"
      ∷ xml_escape id
      ∷ "</Id></"
      ∷ entry
      ∷ ">\n"
      ∷ id_rows entry ids
      ∷ [])

-- `batchDeleteXML`
unfoldable pub batch_delete_xml : List String → List BatchResultError → String
batch_delete_xml successful failed =
    trim_right 10
      (concat (id_rows "DeleteMessageBatchResultEntry" successful ∷ batch_errors_xml failed ∷ []))

-- `batchVisibilityXML`
unfoldable pub batch_visibility_xml : List String → List BatchResultError → String
batch_visibility_xml successful failed = trim_right 10 (
    concat
      (id_rows "ChangeMessageVisibilityBatchResultEntry" successful ∷ batch_errors_xml failed ∷ []))

-- `sendBatchJSON`
unfoldable pub send_batch_json : List BatchSendResult → Rows
send_batch_json [] = no_rows
send_batch_json (result ∷ results) =
    let item = field "Id" (str result.id) (
      field "MessageId" (str result.message_id)
        (field "MD5OfMessageBody" (str result.body_md5) end)) in
    next_row
      (if result.attributes_md5 == ""
        then item
        else set_field "MD5OfMessageAttributes" (str result.attributes_md5) item)
      (send_batch_json results)

-- `batchSuccessIDsJSON`
unfoldable pub batch_success_ids_json : List String → Rows
batch_success_ids_json [] = no_rows
batch_success_ids_json (id ∷ ids) = next_row (field "Id" (str id) end) (batch_success_ids_json ids)

-- `batchFailuresJSON`
unfoldable pub batch_failures_json : List BatchResultError → Rows
batch_failures_json [] = no_rows
batch_failures_json (failure ∷ failed) =
    next_row
      (field "Id" (str failure.id) (
        field "SenderFault" (bool failure.sender_fault)
          (field "Code" (str failure.code) (field "Message" (str failure.message) end))))
      (batch_failures_json failed)

module _ (go : Platform) where
  -- The loop of `queueTagsXML`.
  unfoldable pub tag_rows : Fields → List String → String
  tag_rows tags [] = ""
  tag_rows tags (name ∷ names) = concat (
      "    <Tag><Key>"
      ∷ xml_escape name
      ∷ "</Key><Value>"
      ∷ xml_escape (scalar_string go (get_or_nil name tags))
      ∷ "</Value></Tag>\n"
      ∷ tag_rows tags names
      ∷ [])

  -- `queueTagsXML`
  unfoldable pub queue_tags_xml : Fields → String
  queue_tags_xml tags = trim_right 10 (tag_rows tags (sorted_record_keys tags))

  -- The loop of `tagsMap`.
  unfoldable pub tags_from : Fields → List String → Fields → Fields
  tags_from tags [] result = result
  tags_from tags (name ∷ names) result =
      tags_from tags names (set_field name (str (scalar_string go (get_or_nil name tags))) result)

  -- `tagsMap`
  unfoldable pub tags_map : Fields → Fields
  tags_map tags = tags_from tags (sorted_record_keys tags) end
