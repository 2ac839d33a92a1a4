-- ===== src/Sqs/Handler/Absent.antt =====
-- Requests to internal/services/aws/sqs/handler.go for a queue that there is not.
use emulate.Prelude.{
  ◌≡◌, refl, inl, inr, ap, true, none, some, List, [], ◌∷◌, All, contains, arith, Bool-cases,
  String, string_eq, ◌==◌, if◌then◌else◌,
}
use text.Mathlib.TextEquality.{eq_iff}
use emulate.Prelude.Assoc.{Assoc, lookup}
use emulate.Store.Value.{Fields}
use emulate.Protocols.Errors.{ErrorResponse}
use emulate.Sqs.Params.{Params, param}
use emulate.Sqs.State.{Env, State, find_queue_by_url}
use emulate.Sqs.Response.{queue_not_found, queue_not_found_json, with_request_id}
use emulate.Sqs.Input.{json_params}
use emulate.Sqs.Queues.{
  with_queue, delete_queue, get_queue_attributes, set_queue_attributes, purge_queue,
}
use emulate.Sqs.Queues.Tags.{
  tag_queue, untag_queue, list_queue_tags, tag_queue_json, untag_queue_json, list_queue_tags_json,
}
use emulate.Sqs.Queues.Json.{
  delete_queue_json, get_queue_attributes_json, set_queue_attributes_json, purge_queue_json,
}
use emulate.Sqs.Delivery.{
  send_message, send_message_batch, receive_message, delete_message, delete_message_batch,
  change_message_visibility, change_message_visibility_batch,
}
use emulate.Sqs.Delivery.Json.{
  send_message_json, send_message_batch_json, receive_message_json, delete_message_json,
  delete_message_batch_json, change_message_visibility_json, change_message_visibility_batch_json,
}
use emulate.Sqs.Handler.{
  AwsRequestContext, query_operations, json_operations, chosen_request_id, handle_json, handle,
}

-- The actions on one queue, which QueueUrl names.
abbrev pub queue_actions : List String
queue_actions =
    "DeleteQueue" ∷ "GetQueueAttributes" ∷ "SetQueueAttributes" ∷ "SendMessage" ∷ "SendMessageBatch"
    ∷ "ReceiveMessage" ∷ "DeleteMessage" ∷ "DeleteMessageBatch" ∷ "ChangeMessageVisibility"
    ∷ "ChangeMessageVisibilityBatch" ∷ "PurgeQueue" ∷ "TagQueue" ∷ "UntagQueue" ∷ "ListQueueTags"
    ∷ []

-- The parameters that an operation gets.
abbrev pub params_of : Env → AwsRequestContext → Params
params_of env ctx = if ctx.is_json then json_params env.platform ctx.action ctx.input else ctx.query

-- What holds of the entries under some names holds of the entry under one of them.
listed-lookup {ℓ κ} :
    {V : Type ℓ} (P : V → Type κ) (table : Assoc String V) (names : List String) (name : String)
    → All (λ other. (v : V) × (lookup other table ≡ some v) × P v) names
    → contains name names ≡ true
    → (v : V) × (lookup name table ≡ some v) × P v
unfolding contains
listed-lookup P table [] name h there = cc
listed-lookup P table (other ∷ names) name (here, rest) there = elim (Bool-cases (name == other)) [
  | inl same ↦ let equal : name ≡ other = (eq_iff name other).0 same in rw equal here
  | inr differs ↦ listed-lookup P table names name rest (ground (arith, differs, there))
]

module _ (env : Env) where
  with_queue-absent :
      (missing : ErrorResponse) (params : Params)
      (operation : Fields → State → ErrorResponse × State) (s : State)
      → find_queue_by_url env s (param params "QueueUrl") ≡ none
      → with_queue env missing params operation s ≡ (missing, s)
  unfolding with_queue
  with_queue-absent missing params operation s absent = rw (absent, with_queue) refl

  -- The operation refuses an absent queue, and changes nothing.
  abbrev Refuses : (Params → String → State → ErrorResponse × State) → Type 0
  Refuses operation =
      (params : Params) (request_id : String) (s : State)
      → find_queue_by_url env s (param params "QueueUrl") ≡ none
      → operation params request_id s ≡ (queue_not_found request_id, s)

  abbrev RefusesJson : (Params → State → ErrorResponse × State) → Type 0
  RefusesJson operation =
      (params : Params) (s : State)
      → find_queue_by_url env s (param params "QueueUrl") ≡ none
      → operation params s ≡ (queue_not_found_json, s)

  query_operations-Refuses :
      All
        (λ name.
          (operation : Params → String → State → ErrorResponse × State) × (lookup name
              (query_operations env)
            ≡ some operation)
          × Refuses operation)
        queue_actions
  unfolding query_operations lookup delete_queue get_queue_attributes set_queue_attributes
      send_message send_message_batch receive_message delete_message delete_message_batch
      change_message_visibility change_message_visibility_batch purge_queue tag_queue untag_queue
      list_queue_tags
  query_operations-Refuses = (
    (delete_queue env, refl, λ p r s h. with_queue-absent (queue_not_found r) p _ s h),
    (
      (get_queue_attributes env, refl, λ p r s h. with_queue-absent (queue_not_found r) p _ s h),
      (
        (set_queue_attributes env, refl, λ p r s h. with_queue-absent (queue_not_found r) p _ s h),
        (
          (send_message env, refl, λ p r s h. with_queue-absent (queue_not_found r) p _ s h),
          (
            (
              send_message_batch env,
              refl,
              λ p r s h. with_queue-absent (queue_not_found r) p _ s h,
            ),
            (
              (receive_message env, refl, λ p r s h. with_queue-absent (queue_not_found r) p _ s h),
              (
                (
                  delete_message env,
                  refl,
                  λ p r s h. with_queue-absent (queue_not_found r) p _ s h,
                ),
                (
                  (
                    delete_message_batch env,
                    refl,
                    λ p r s h. with_queue-absent (queue_not_found r) p _ s h,
                  ),
                  (
                    (
                      change_message_visibility env,
                      refl,
                      λ p r s h. with_queue-absent (queue_not_found r) p _ s h,
                    ),
                    (
                      (
                        change_message_visibility_batch env,
                        refl,
                        λ p r s h. with_queue-absent (queue_not_found r) p _ s h,
                      ),
                      (
                        (
                          purge_queue env,
                          refl,
                          λ p r s h. with_queue-absent (queue_not_found r) p _ s h,
                        ),
                        (
                          (
                            tag_queue env,
                            refl,
                            λ p r s h. with_queue-absent (queue_not_found r) p _ s h,
                          ),
                          (
                            (
                              untag_queue env,
                              refl,
                              λ p r s h. with_queue-absent (queue_not_found r) p _ s h,
                            ),
                            (
                              (
                                list_queue_tags env,
                                refl,
                                λ p r s h. with_queue-absent (queue_not_found r) p _ s h,
                              ),
                              tt,
                            ),
                          ),
                        ),
                      ),
                    ),
                  ),
                ),
              ),
            ),
          ),
        ),
      ),
    ),
  )

  json_operations-Refuses :
      All
        (λ name.
          (operation : Params → State → ErrorResponse × State) × (lookup name (json_operations env)
            ≡ some operation)
          × RefusesJson operation)
        queue_actions
  unfolding json_operations lookup delete_queue_json get_queue_attributes_json
      set_queue_attributes_json send_message_json send_message_batch_json receive_message_json
      delete_message_json delete_message_batch_json change_message_visibility_json
      change_message_visibility_batch_json purge_queue_json tag_queue_json untag_queue_json
      list_queue_tags_json
  json_operations-Refuses = (
    (delete_queue_json env, refl, λ p s h. with_queue-absent queue_not_found_json p _ s h),
    (
      (
        get_queue_attributes_json env,
        refl,
        λ p s h. with_queue-absent queue_not_found_json p _ s h,
      ),
      (
        (
          set_queue_attributes_json env,
          refl,
          λ p s h. with_queue-absent queue_not_found_json p _ s h,
        ),
        (
          (send_message_json env, refl, λ p s h. with_queue-absent queue_not_found_json p _ s h),
          (
            (
              send_message_batch_json env,
              refl,
              λ p s h. with_queue-absent queue_not_found_json p _ s h,
            ),
            (
              (
                receive_message_json env,
                refl,
                λ p s h. with_queue-absent queue_not_found_json p _ s h,
              ),
              (
                (
                  delete_message_json env,
                  refl,
                  λ p s h. with_queue-absent queue_not_found_json p _ s h,
                ),
                (
                  (
                    delete_message_batch_json env,
                    refl,
                    λ p s h. with_queue-absent queue_not_found_json p _ s h,
                  ),
                  (
                    (
                      change_message_visibility_json env,
                      refl,
                      λ p s h. with_queue-absent queue_not_found_json p _ s h,
                    ),
                    (
                      (
                        change_message_visibility_batch_json env,
                        refl,
                        λ p s h. with_queue-absent queue_not_found_json p _ s h,
                      ),
                      (
                        (
                          purge_queue_json env,
                          refl,
                          λ p s h. with_queue-absent queue_not_found_json p _ s h,
                        ),
                        (
                          (
                            tag_queue_json env,
                            refl,
                            λ p s h. with_queue-absent queue_not_found_json p _ s h,
                          ),
                          (
                            (
                              untag_queue_json env,
                              refl,
                              λ p s h. with_queue-absent queue_not_found_json p _ s h,
                            ),
                            (
                              (
                                list_queue_tags_json env,
                                refl,
                                λ p s h. with_queue-absent queue_not_found_json p _ s h,
                              ),
                              tt,
                            ),
                          ),
                        ),
                      ),
                    ),
                  ),
                ),
              ),
            ),
          ),
        ),
      ),
    ),
  )

  -- The draw of a request's id leaves the queues.
  chosen-absent :
      (ctx : AwsRequestContext) (s : State) (url : String)
      → find_queue_by_url env s url ≡ none
      → find_queue_by_url env (chosen_request_id env ctx s).1 url ≡ none
  unfolding chosen_request_id find_queue_by_url
  chosen-absent ctx s url absent = elim (Bool-cases (ctx.request_id == "")) [
    | inl missing ↦ rw (missing, chosen_request_id) absent
    | inr given ↦ rw (given, chosen_request_id) absent
  ]

  -- A request for an action on one queue whose QueueUrl names no queue gets the error for that in
  -- its protocol, whatever else it asks for, and changes nothing but the draw of its id.
  pub handle-absent :
      (ctx : AwsRequestContext) (s : State)
      → contains ctx.action queue_actions ≡ true
      → find_queue_by_url env s (param (params_of env ctx) "QueueUrl") ≡ none
      → handle env ctx s ≡ (
        with_request_id
            (if ctx.is_json
              then queue_not_found_json
              else queue_not_found (chosen_request_id env ctx s).0)
            (chosen_request_id env ctx s).0,
        (chosen_request_id env ctx s).1,
      )
  unfolding handle handle_json chosen_request_id
  handle-absent ctx s known absent = elim (Bool-cases ctx.is_json) [
    | inl json ↦
        let (operation, found, refuses) =
          listed-lookup RefusesJson (json_operations env) queue_actions ctx.action
            json_operations-Refuses known in
        let here = rw json at absent in
        rw (json, found, handle, handle_json)
          (ap (λ done. (with_request_id done.0 (chosen_request_id env ctx s).0, done.1))
            (refuses (json_params env.platform ctx.action ctx.input) _
              (chosen-absent ctx s _ here)))
    | inr query ↦
        let (operation, found, refuses) =
          listed-lookup Refuses (query_operations env) queue_actions ctx.action
            query_operations-Refuses known in
        let here = rw query at absent in
        rw (query, found, handle)
          (ap (λ done. (with_request_id done.0 (chosen_request_id env ctx s).0, done.1))
            (refuses ctx.query _ _ (chosen-absent ctx s _ here)))
  ]
