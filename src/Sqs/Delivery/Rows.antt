-- ===== src/Sqs/Delivery/Rows.antt =====
-- The messages in the answers of internal/services/aws/sqs/handler.go, in XML and in JSON.
use emulate.Prelude.{
  none, some, List, [], ◌∷◌, length, nat_eq, String, string_eq, ◌==◌, if◌then◌else◌,
}
use emulate.Prelude.Text.{text_order}
use emulate.Prelude.Sort.{sort}
use emulate.Prelude.Assoc.{Assoc, lookup, keys}
use emulate.Store.Value.{Value, Fields, nil, str, object, end, field, set_field}
use emulate.Sqs.Fields.{Platform, concat, xml_escape, record_value, string_field}
use emulate.Sqs.Params.{Params}
use emulate.Sqs.Response.Results.{between}
use emulate.Sqs.Attributes.{selected_system_attributes, selected_message_attributes}

-- `systemAttributeOrder`
abbrev pub system_attribute_order : List String
system_attribute_order =
    "SenderId" ∷ "SentTimestamp" ∷ "ApproximateReceiveCount" ∷ "ApproximateFirstReceiveTimestamp"
    ∷ []

-- The loop of `writeSystemAttributesXML`.
unfoldable pub system_attribute_rows : Params → List String → String
system_attribute_rows attrs [] = ""
system_attribute_rows attrs (name ∷ names) =
    let rest = system_attribute_rows attrs names in
    elim (lookup name attrs) [
      | none ↦ rest
      | some value ↦ concat (
          "      <Attribute><Name>"
          ∷ xml_escape name
          ∷ "</Name><Value>"
          ∷ xml_escape value
          ∷ "</Value></Attribute>\n"
          ∷ rest
          ∷ [])
    ]

-- The attributes as the object that is marshalled.
unfoldable pub text_fields : Params → Fields
text_fields [] = end
text_fields ((name, value) ∷ attrs) = field name (str value) (text_fields attrs)

unfoldable pub value_fields : Assoc String Value → Fields
value_fields [] = end
value_fields ((name, value) ∷ attrs) = field name value (value_fields attrs)

-- attrs[name] of attributes
unfoldable pub attribute_value : Assoc String Value → String → Fields
attribute_value attrs name = elim (lookup name attrs) [
  | none ↦ record_value nil
  | some value ↦ record_value value
]

module _ (go : Platform) where
  -- `writeSystemAttributesXML`
  unfoldable pub system_attributes_xml : Fields → Params → String
  system_attributes_xml message params =
      system_attribute_rows (selected_system_attributes go message params) system_attribute_order

  -- A round of `writeMessageAttributesXML`.
  unfoldable pub message_attribute_row : String → Fields → String
  message_attribute_row name value = concat (
      "      <MessageAttribute><Name>"
      ∷ xml_escape name
      ∷ "</Name><Value><DataType>"
      ∷ xml_escape (string_field go value "DataType")
      ∷ "</DataType>"
      ∷ between "<StringValue>" "</StringValue>" (xml_escape (string_field go value "StringValue"))
      ∷ between "<BinaryValue>" "</BinaryValue>" (xml_escape (string_field go value "BinaryValue"))
      ∷ "</Value></MessageAttribute>\n"
      ∷ [])

  unfoldable pub message_attribute_rows : Assoc String Value → List String → String
  message_attribute_rows attrs [] = ""
  message_attribute_rows attrs (name ∷ names) = concat (
      message_attribute_row name (attribute_value attrs name)
      ∷ message_attribute_rows attrs names
      ∷ [])

  -- `writeMessageAttributesXML`
  unfoldable pub message_attributes_xml : Fields → Params → String
  message_attributes_xml message params =
      let attrs = selected_message_attributes go message params in
      concat (
        (if length attrs == 0
          then ""
          else between "      <MD5OfMessageAttributes>" "</MD5OfMessageAttributes>\n"
              (string_field go message "md5_of_message_attributes"))
        ∷ message_attribute_rows attrs (sort ⦃o = text_order⦄ (keys attrs))
        ∷ [])

  -- A round of the last loop of `receiveMessage`.
  unfoldable pub message_row : Params → Fields → String
  message_row params message = concat (
      "    <Message>\n      <MessageId>"
      ∷ xml_escape (string_field go message "message_id")
      ∷ "</MessageId>\n      <ReceiptHandle>"
      ∷ xml_escape (string_field go message "receipt_handle")
      ∷ "</ReceiptHandle>\n      <MD5OfBody>"
      ∷ xml_escape (string_field go message "md5_of_body")
      ∷ "</MD5OfBody>\n      <Body>"
      ∷ xml_escape (string_field go message "body")
      ∷ "</Body>\n"
      ∷ system_attributes_xml message params
      ∷ message_attributes_xml message params
      ∷ "    </Message>\n"
      ∷ [])

  unfoldable pub message_rows : Params → List Fields → String
  message_rows params [] = ""
  message_rows params (message ∷ messages) =
      concat (message_row params message ∷ message_rows params messages ∷ [])

  -- The item with the message's attributes in `receiveMessageJSON`.
  unfoldable pub with_message_attributes : Fields → Assoc String Value → Fields → Fields
  with_message_attributes message attrs item =
      let md5_value = string_field go message "md5_of_message_attributes" in
      let marked = set_field "MessageAttributes" (object (value_fields attrs)) item in
      if length attrs == 0
      then item
      else if md5_value == ""
      then marked
      else set_field "MD5OfMessageAttributes" (str md5_value) marked

  -- The item with the system's attributes.
  unfoldable pub with_system_attributes : Params → Fields → Fields
  with_system_attributes attrs item =
      if length attrs == 0 then item else set_field "Attributes" (object (text_fields attrs)) item

  -- The item of a message in `receiveMessageJSON`.
  unfoldable pub message_item : Params → Fields → Fields
  message_item params message =
      with_message_attributes message (selected_message_attributes go message params) (
        with_system_attributes (selected_system_attributes go message params) (
          field "MessageId" (str (string_field go message "message_id")) (
            field "ReceiptHandle" (str (string_field go message "receipt_handle")) (
              field "MD5OfBody" (str (string_field go message "md5_of_body"))
                (field "Body" (str (string_field go message "body")) end)))))
