-- ===== src/Sqs/Delivery/Taken.antt =====
-- The two loops that take messages in internal/services/aws/sqs/handler.go, that of `receiveMessage`
-- and that of `receiveMessageJSON`.
use emulate.Prelude.{
  ◌≡◌, refl, inl, inr, ap, some, List, [], ◌∷◌, ℕ, zero, suc, Bool-cases, Option-cases,
}
use emulate.Prelude.Int.{ℤ, int_less}
use emulate.Store.Value.{Fields, Rows, objects, end, field, no_rows, next_row}
use emulate.Sqs.Fields.{int64_field}
use emulate.Sqs.Params.{Params, param}
use emulate.Sqs.State.{Env, State, find_queue_by_url}
use emulate.Sqs.Response.{json_response}
use emulate.Sqs.Messages.{reserve_visible_message, take_visible, receive, clamped}
use emulate.Sqs.Queues.{with_queue}
use emulate.Sqs.Delivery.{received}
use emulate.Sqs.Delivery.Rows.{message_item}
use emulate.Sqs.Delivery.Json.{take_items, receive_message_json}

module _ (env : Env) where
  -- The items of messages, in order.
  abbrev pub message_items : Params → List Fields → Rows
  message_items params [] = no_rows
  message_items params (message ∷ messages) =
      next_row (message_item env.platform params message) (message_items params messages)

  pub take_items-eq :
      (params : Params) (now timeout : ℤ) (room : ℕ) (messages : List Fields) (s : State)
      → take_items env params now timeout room messages s ≡ (
        message_items params (take_visible env now timeout room messages s).0,
        (take_visible env now timeout room messages s).1,
      )
  unfolding take_items take_visible
  take_items-eq params now timeout zero [] s = refl
  take_items-eq params now timeout (suc room) [] s = refl
  take_items-eq params now timeout zero (message ∷ rest) s = refl
  take_items-eq params now timeout (suc room) (message ∷ rest) s =
      let reserved = reserve_visible_message env message now timeout s in
      elim (Bool-cases (int_less now (int64_field env.platform message "visible_after"))) [
        | inl hidden ↦
            rw (hidden, take_items, take_visible)
              (take_items-eq params now timeout (suc room) rest s)
        | inr visible ↦ elim (Option-cases reserved.0) [
          | inl nothing ↦
              rw (visible, nothing, take_items, take_visible)
                (take_items-eq params now timeout (suc room) rest reserved.1)
          | inr (out, taken) ↦
              rw (visible, taken, take_items, take_visible)
                (ap (λ more. (next_row (message_item env.platform params out) more.0, more.1))
                  (take_items-eq params now timeout room rest reserved.1))
        ]
      ]

  -- Where the queue exists, `receiveMessageJSON` reserves the messages that `receiveMessage`
  -- reserves for the same parameters, in the same order, and its answer is the list of their items:
  -- its loop, which renders each message as soon as it is reserved, does what reserving all of them
  -- first and rendering them afterwards does.
  pub receive_message_json-eq :
      (params : Params) (queue : Fields) (s : State)
      → find_queue_by_url env s (param params "QueueUrl") ≡ some queue
      → receive_message_json env params s ≡ (
        json_response 200
            (field "Messages" (objects (message_items params (received env params queue s).0)) end),
        (received env params queue s).1,
      )
  unfolding receive_message_json with_queue received receive clamped
  receive_message_json-eq params queue s found =
      rw (found, receive_message_json, with_queue)
        (ap (λ taken. (json_response 200 (field "Messages" (objects taken.0) end), taken.1))
          (take_items-eq params _ _ _ _ (record s { tick = suc s.tick })))
