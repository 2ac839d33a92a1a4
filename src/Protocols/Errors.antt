-- ===== src/Protocols/Errors.antt =====
-- internal/services/aws/protocols/errors.go: the answers to a request and the ones for an error.
use emulate.Prelude.{ℕ, [], ◌∷◌, ◌||◌, leb, String, string_eq, nat_eq, ◌==◌, if◌then◌else◌}
use Prim.Native.String
use emulate.Prelude.Text.{contains_text}
use emulate.Prelude.Assoc.{Assoc, put}
use emulate.Store.Value.{Value, object, str, end, field}

pub record AwsError : Type 0 where
  pub code : String
  pub message : String
  pub kind : String
  pub request_id : String
  pub resource : String
  pub service : String
  pub status_code : ℕ

-- The bytes of an answer. What the packages encoding/json and encoding/xml marshal is kept as the
-- value they get: `query_xml` has the fields of `queryXMLErrorResponse`, `rest_xml` those of
-- `restXMLError`.
pub data Body : Type 0 where
  text : String → Body
  json : Value → Body
  query_xml : String → String → String → String → Body
  rest_xml : String → String → String → String → Body

pub record ErrorResponse : Type 0 where
  pub status_code : ℕ
  pub content_type : String
  pub headers : Assoc String String
  pub body : Body

-- `normalizeAWSError`
unfoldable pub normalize_aws_error : AwsError → AwsError
normalize_aws_error e =
    let code = if e.code == "" then "InternalFailure" else e.code in
    let message = if e.message == "" then "An internal error occurred." else e.message in
    let status_code =
      if e.status_code == 0
      then (if code == "InternalFailure" then 500 else 400)
      else e.status_code in
    let kind =
      if e.kind == "" then (if leb 500 status_code then "Receiver" else "Sender") else e.kind in
    record e { code = code; message = message; status_code = status_code; kind = kind }

-- `errorHeaders`
unfoldable pub error_headers : AwsError → String → Assoc String String
error_headers e content_type =
    let headers = ("Content-Type", content_type) ∷ [] in
    if e.request_id == "" then headers else put "x-amzn-requestid" e.request_id headers

-- `SerializeXMLError`
unfoldable pub serialize_xml_error : AwsError → ErrorResponse
serialize_xml_error given =
    let e = normalize_aws_error given in
    record {
      status_code = e.status_code;
      content_type = "application/xml";
      headers = error_headers e "application/xml";
      body = query_xml e.kind e.code e.message e.request_id;
    }

-- `SerializeRESTXMLError`
unfoldable pub serialize_rest_xml_error : AwsError → ErrorResponse
serialize_rest_xml_error given =
    let e = normalize_aws_error given in
    let headers = error_headers e "application/xml" in
    record {
      status_code = e.status_code;
      content_type = "application/xml";
      headers = if e.request_id == "" then headers else put "x-amz-request-id" e.request_id headers;
      body = rest_xml e.code e.message e.resource e.request_id;
    }

-- The type of an error in `SerializeJSONError`.
unfoldable pub error_type : AwsError → String
error_type e =
    if e.service == "" || contains_text b'#' e.code
    then e.code
    else String.◌++◌ e.service (String.◌++◌ "#" e.code)

-- `SerializeJSONError`
unfoldable pub serialize_json_error : AwsError → ErrorResponse
serialize_json_error given =
    let e = normalize_aws_error given in
    record {
      status_code = e.status_code;
      content_type = "application/x-amz-json-1.0";
      headers = put "x-amzn-errortype" e.code (error_headers e "application/x-amz-json-1.0");
      body =
          json (object (field "__type" (str (error_type e)) (field "message" (str e.message) end)));
    }
