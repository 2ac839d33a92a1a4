-- ===== src/Sns/Response.antt =====
-- The answers of internal/services/aws/sns/handler.go. `xmlResponse`, `queryError` and `withRequestID`
-- are the same text as in the SQS handler.
use emulate.Prelude.{List, [], ◌∷◌, String, string_eq}
use emulate.Prelude.Text.{trim_right, text_order}
use emulate.Prelude.Sort.{sort}
use emulate.Prelude.Assoc.{keys}
use emulate.Store.Value.{Fields}
use emulate.Protocols.Errors.{ErrorResponse}
use emulate.Sqs.Fields.{Platform, concat, xml_escape}
use emulate.Sqs.Params.{Params}
use emulate.Sqs.Response.{xml_response, document, result_lines, plain_answer, query_error}
use emulate.Sns.Fields.{string_field, sort_by, value_of}

-- The line of a result with one value.
unfoldable pub value_line : String → String → String → String
value_line action tag value = concat (
    "  <" ∷ action ∷ "Result><" ∷ tag ∷ ">" ∷ value ∷ "</" ∷ tag ∷ "></" ∷ action ∷ "Result>\n"
    ∷ [])

-- `topicArnResponse`
unfoldable pub topic_arn_response : String → String → String → ErrorResponse
topic_arn_response action arn request_id =
    xml_response 200 (document action (value_line action "TopicArn" (xml_escape arn)) request_id)

-- `subscriptionArnResponse`
unfoldable pub subscription_arn_response : String → String → String → ErrorResponse
subscription_arn_response action arn request_id =
    xml_response 200
      (document action (value_line action "SubscriptionArn" (xml_escape arn)) request_id)

-- An answer with a list, within its element.
unfoldable pub list_answer : String → String → String → String → ErrorResponse
list_answer action tag rows request_id = xml_response 200 (
    document action
      (result_lines action
        (concat ("    <" ∷ tag ∷ ">\n" ∷ trim_right 10 rows ∷ "\n    </" ∷ tag ∷ ">" ∷ [])))
      request_id)

-- The loop of `attributesResponse`.
unfoldable pub entry_rows : Params → List String → String
entry_rows attrs [] = ""
entry_rows attrs (key ∷ names) = concat (
    "      <entry><key>"
    ∷ xml_escape key
    ∷ "</key><value>"
    ∷ xml_escape (value_of attrs key)
    ∷ "</value></entry>\n"
    ∷ entry_rows attrs names
    ∷ [])

-- `attributesResponse`
unfoldable pub attributes_response : String → Params → String → ErrorResponse
attributes_response action attrs request_id =
    list_answer action "Attributes" (entry_rows attrs (sort ⦃o = text_order⦄ (keys attrs)))
      request_id

-- `emptyResponse`
unfoldable pub empty_response : String → String → ErrorResponse
empty_response action request_id = plain_answer action request_id

-- `notFound`
unfoldable pub not_found : String → String → ErrorResponse
not_found kind request_id =
    query_error "NotFound" (concat (kind ∷ " does not exist." ∷ [])) 404 request_id

module _ (go : Platform) where
  -- The loop of `subscriptionsResponse`.
  unfoldable pub subscription_rows : List Fields → String
  subscription_rows [] = ""
  subscription_rows (subscription ∷ rest) = concat (
      "      <member><SubscriptionArn>"
      ∷ xml_escape (string_field go subscription "subscription_arn")
      ∷ "</SubscriptionArn><Owner>"
      ∷ xml_escape (string_field go subscription "account_id")
      ∷ "</Owner><Protocol>"
      ∷ xml_escape (string_field go subscription "protocol")
      ∷ "</Protocol><Endpoint>"
      ∷ xml_escape (string_field go subscription "endpoint")
      ∷ "</Endpoint><TopicArn>"
      ∷ xml_escape (string_field go subscription "topic_arn")
      ∷ "</TopicArn></member>\n"
      ∷ subscription_rows rest
      ∷ [])

  -- `subscriptionsResponse`
  unfoldable pub subscriptions_response : String → List Fields → String → ErrorResponse
  subscriptions_response action subscriptions request_id =
      list_answer action "Subscriptions"
        (subscription_rows (sort_by go "subscription_arn" subscriptions)) request_id

  -- The loop of `listTopics`.
  unfoldable pub topic_rows : List Fields → String
  topic_rows [] = ""
  topic_rows (topic ∷ rest) = concat (
      "      <member><TopicArn>"
      ∷ xml_escape (string_field go topic "arn")
      ∷ "</TopicArn></member>\n"
      ∷ topic_rows rest
      ∷ [])

  -- The loop of `listTagsForResource`.
  unfoldable pub member_rows : List Fields → String
  member_rows [] = ""
  member_rows (tag ∷ rest) = concat (
      "      <member><Key>"
      ∷ xml_escape (string_field go tag "Key")
      ∷ "</Key><Value>"
      ∷ xml_escape (string_field go tag "Value")
      ∷ "</Value></member>\n"
      ∷ member_rows rest
      ∷ [])
