-- ===== src/Sqs/Response.antt =====
-- Answers in internal/services/aws/sqs/handler.go: the bodies in XML and JSON, the errors, and the
-- results of batches.
pub mod Results
use emulate.Prelude.{
  ℕ, Bool, true, false, Option, none, some, List, [], ◌∷◌, String, string_eq, ◌==◌, if◌then◌else◌,
}
use emulate.Prelude.Text.{trim_right}
use emulate.Prelude.Assoc.{Assoc, lookup, put}
use emulate.Store.Value.{
  Value, Fields, Rows, str, bool, objects, object, end, field, no_rows, next_row, get_or_nil,
}
use emulate.Protocols.Errors.{
  Body, text, json, ErrorResponse, serialize_xml_error, serialize_json_error,
}
use emulate.Sqs.Fields.{Platform, concat, xml_escape, sorted_record_keys, scalar_string}
use emulate.Sqs.Messages.{BatchSendResult}

-- `nameValue`
pub record NameValue : Type 0 where
  pub name : String
  pub value : String

-- `batchResultError`
pub record BatchResultError : Type 0 where
  pub id : String
  pub code : String
  pub message : String
  pub sender_fault : Bool

-- `batchValidationError`
pub record BatchValidationError : Type 0 where
  pub code : String
  pub message : String

-- `batchError`
unfoldable pub batch_error : String → String → String → BatchResultError
batch_error id code message = record {
  id = id;
  code = code;
  message = message;
  sender_fault = true;
}

-- `xmlResponse`
unfoldable pub xml_response : ℕ → String → ErrorResponse
xml_response status body = record {
  status_code = status;
  content_type = "application/xml";
  headers = ("Content-Type", "application/xml") ∷ [];
  body = text body;
}

-- `jsonResponse`
unfoldable pub json_response : ℕ → Fields → ErrorResponse
json_response status value = record {
  status_code = status;
  content_type = "application/x-amz-json-1.0";
  headers = ("Content-Type", "application/x-amz-json-1.0") ∷ [];
  body = json (object value);
}

-- An error of the JSON protocol.
unfoldable pub json_error : String → String → ErrorResponse
json_error kind message =
    json_response 400 (field "__type" (str kind) (field "message" (str message) end))

-- `withRequestID`
unfoldable pub with_request_id : ErrorResponse → String → ErrorResponse
with_request_id response request_id =
    let marked = record response { headers = put "x-amzn-requestid" request_id response.headers } in
    if request_id == "" then response else elim (lookup "x-amzn-requestid" response.headers) [
      | none ↦ marked
      | some value ↦ if value == "" then marked else response
    ]

-- The body of an answer to an action around the lines of its result.
unfoldable pub document : String → String → String → String
document action lines request_id = concat (
    "<?xml version=\"1.0\" encoding=\"UTF-8\"?>\n<"
    ∷ action
    ∷ "Response>\n"
    ∷ lines
    ∷ "  <ResponseMetadata><RequestId>"
    ∷ xml_escape request_id
    ∷ "</RequestId></ResponseMetadata>\n</"
    ∷ action
    ∷ "Response>"
    ∷ [])

-- The lines of a result around its rows.
unfoldable pub result_lines : String → String → String
result_lines action rows =
    concat ("  <" ∷ action ∷ "Result>\n" ∷ rows ∷ "\n  </" ∷ action ∷ "Result>\n" ∷ [])

-- An answer without a result.
unfoldable pub plain_answer : String → String → ErrorResponse
plain_answer action request_id = xml_response 200 (document action "" request_id)

-- An answer with a result.
unfoldable pub answer : String → String → String → ErrorResponse
answer action rows request_id =
    xml_response 200 (document action (result_lines action rows) request_id)

-- `queueURLResponse`
unfoldable pub queue_url_response : String → String → String → ErrorResponse
queue_url_response action queue_url request_id =
    answer action (concat ("    <QueueUrl>" ∷ xml_escape queue_url ∷ "</QueueUrl>" ∷ [])) request_id

-- `queryError`
unfoldable pub query_error : String → String → ℕ → String → ErrorResponse
query_error code message status request_id = serialize_xml_error (record {
  code = code;
  message = message;
  kind = "";
  request_id = request_id;
  resource = "";
  service = "";
  status_code = status;
})

-- `queueNotFound`
unfoldable pub queue_not_found : String → ErrorResponse
queue_not_found request_id =
    query_error "AWS.SimpleQueueService.NonExistentQueue" "The specified queue does not exist." 400
      request_id

-- `queueNotFoundJSON`
unfoldable pub queue_not_found_json : ErrorResponse
queue_not_found_json = json_error "QueueDoesNotExist" "The specified queue does not exist."

-- `batchQueryError`
unfoldable pub batch_query_error : BatchValidationError → String → ErrorResponse
batch_query_error validation request_id =
    query_error (concat ("AWS.SimpleQueueService." ∷ validation.code ∷ [])) validation.message 400
      request_id

-- `batchJSONError`
unfoldable pub batch_json_error : BatchValidationError → ErrorResponse
batch_json_error validation = serialize_json_error (record {
  code = validation.code;
  message = validation.message;
  kind = "";
  request_id = "";
  resource = "";
  service = "com.amazonaws.sqs";
  status_code = 400;
})
