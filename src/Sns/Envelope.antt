-- ===== src/Sns/Envelope.antt =====
-- The bodies of published messages in internal/services/aws/sns/handler.go: `parseJSONMessage`,
-- `jsonMessageForProtocol`, `snsEnvelopeMessageAttributes` and `sqsBody`.
use emulate.Prelude.{
  ℕ, Bool, Option, none, some, [], ◌∷◌, length, nat_eq, String, string_eq, ◌==◌, if◌then◌else◌,
}
use emulate.Prelude.Result.{Result, ok, err}
use emulate.Prelude.Assoc.{Assoc, lookup, put}
use emulate.Store.Value.{Fields, str, row, object, end, field, set_field}
use emulate.Sqs.Fields.{record_value}
use emulate.Sqs.Params.{Params}
use emulate.Sqs.Attributes.{entries}
use emulate.Sns.Fields.{first_non_empty, string_field, string_map_field, value_of}
use emulate.Sns.State.{Env, Texts}

-- The members that are strings, in the last loop of `parseJSONMessage`.
unfoldable pub string_members : Assoc String (Option String) → Params → Params
string_members [] out = out
string_members ((key, none) ∷ body) out = string_members body out
string_members ((key, some value) ∷ body) out =
    string_members body (if key == "default" then out else put key value out)

-- `parseJSONMessage` of the members of an object
unfoldable pub default_and_members : Assoc String (Option String) → Result String Params
default_and_members body = elim (lookup "default" body) [
  | none ↦ err "MessageStructure json requires a default message."
  | some none ↦ err "MessageStructure json requires default to be a string."
  | some (some value) ↦ ok (string_members body (("default", value) ∷ []))
]

-- `parseJSONMessage`
unfoldable pub parse_json_message : Texts → String → Result String Params
parse_json_message texts raw = elim (texts.unmarshal_object raw) [
  | none ↦ err "MessageStructure json requires a valid JSON object."
  | some body ↦ default_and_members body
]

-- `jsonMessageForProtocol`
unfoldable pub json_message_for_protocol : Texts → String → String → String
json_message_for_protocol texts raw protocol = elim (parse_json_message texts raw) [
  | err problem ↦ raw
  | ok body ↦ elim (lookup protocol body) [
    | some value ↦ value
    | none ↦ elim (lookup "default" body) [ none ↦ raw | some value ↦ value ]
  ]
]

-- What is published.
pub record Message : Type 0 where
  pub id : String
  pub subject : String
  pub text : String
  pub structure : String
  pub attributes : Fields

module _ (env : Env) where
  -- `snsEnvelopeMessageAttributes`
  unfoldable pub envelope_attributes : Fields → Fields
  envelope_attributes end = end
  envelope_attributes (field name raw_value attrs) =
      let go = env.platform in
      let value = record_value raw_value in
      field name
        (row (
          field "Type" (str (first_non_empty (string_field go value "DataType" ∷ "String" ∷ []))) (
            field "Value"
              (str (
                first_non_empty
                  (string_field go value "StringValue" ∷ string_field go value "BinaryValue" ∷ [])))
              end)))
        (envelope_attributes attrs)

  -- Whether the message is a JSON object with a text for each protocol.
  unfoldable pub is_json : Message → Bool
  is_json message = env.platform.equal_fold message.structure "json"

  -- Whether the subscription gets the bare message.
  unfoldable pub is_raw : Fields → Bool
  is_raw subscription =
      env.platform.equal_fold
        (value_of (string_map_field env.platform subscription "attributes") "RawMessageDelivery")
        "true"

  -- The text of the message for SQS.
  unfoldable pub text_for_sqs : Message → String
  text_for_sqs message =
      if is_json message
      then json_message_for_protocol env.texts message.text "sqs"
      else message.text

  -- The envelope that `sqsBody` marshals.
  unfoldable pub envelope : Fields → Message → Fields → ℕ → Fields
  envelope topic message attrs draw =
      let base = field "Type" (str "Notification") (
        field "MessageId" (str message.id) (
          field "TopicArn" (str (string_field env.platform topic "arn")) (
            field "Message" (str (text_for_sqs message)) (
              field "Timestamp" (str (env.sources.now_text draw)) (
                field "SignatureVersion" (str "1") (
                  field "Signature" (str "")
                    (field "SigningCertURL" (str "") (field "UnsubscribeURL" (str "") end)))))))) in
      let marked =
        if length (entries attrs) == 0
        then base
        else set_field "MessageAttributes" (row (envelope_attributes attrs)) base in
      if message.subject == "" then marked else set_field "Subject" (str message.subject) marked

  -- `sqsBody`
  unfoldable pub sqs_body : Fields → Fields → Message → Fields → ℕ → String
  sqs_body topic subscription message attrs draw =
      if is_raw subscription
      then text_for_sqs message
      else env.texts.marshal (object (envelope topic message attrs draw))
