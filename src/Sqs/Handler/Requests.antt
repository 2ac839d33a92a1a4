-- ===== src/Sqs/Handler/Requests.antt =====
-- `Handle` of internal/services/aws/sqs/handler.go over a history of requests.
use emulate.Prelude.{
  ◌≡◌, inl, inr, some, List, [], ◌∷◌, All, arith, Bool-cases, Option-cases, String, string_eq, ◌==◌,
}
use emulate.Prelude.Assoc.{Assoc, lookup}
use emulate.Store.Value.{Fields}
use emulate.Protocols.Errors.{ErrorResponse}
use emulate.Sqs.Params.{Params, param}
use emulate.Sqs.State.{Env, State, find_queue_by_name}
use emulate.Sqs.Response.{queue_not_found, queue_not_found_json}
use emulate.Sqs.Input.{json_params}
use emulate.Sqs.Messages.Records.{IsSound}
use emulate.Sqs.Queues.{
  delete_queue, list_queues, get_queue_url, get_queue_attributes, set_queue_attributes, purge_queue,
}
use emulate.Sqs.Queues.Tags.{
  merge_queue_tags, remove_queue_tags, tag_queue, untag_queue, list_queue_tags, tag_queue_json,
  untag_queue_json, list_queue_tags_json,
}
use emulate.Sqs.Queues.Json.{list_queues_json, get_queue_url_json, get_queue_attributes_json}
use emulate.Sqs.Handler.{
  AwsRequestContext, query_operations, json_operations, chosen_request_id, handle_json, handle,
}
use emulate.Sqs.Handler.Invariant.{
  Keeps, with_queue-Keeps, create_queue-Keeps, create_queue_json-Keeps, without_messages-IsSound,
  delete_queue_json-Keeps, purge_queue_json-Keeps, set_queue_attributes_json-Keeps,
  without_queue-IsSound, with_attributes-IsSound, change_tags-IsSound,
}
use emulate.Sqs.Handler.Operations.{
  send_message-Keeps, send_message_json-Keeps, receive_message-Keeps, receive_message_json-Keeps,
  delete_message-Keeps, delete_message_json-Keeps, change_message_visibility-Keeps,
  change_message_visibility_json-Keeps, send_message_batch-Keeps, send_message_batch_json-Keeps,
  delete_message_batch-Keeps, delete_message_batch_json-Keeps,
  change_message_visibility_batch-Keeps, change_message_visibility_batch_json-Keeps,
}

-- What holds of every entry holds of the one that is found.
pub All-lookup {ℓ κ} :
    {V : Type ℓ} (P : V → Type κ) (table : Assoc String V) (name : String) (v : V)
    → All (λ entry. P entry.1) table
    → lookup name table ≡ some v
    → P v
unfolding lookup
All-lookup P [] name v h found = cc
All-lookup P ((key, w) ∷ table) name v (here, there) found = elim (Bool-cases (name == key)) [
  | inl same ↦ let hit : w ≡ v = ground arith in rw hit at here
  | inr other ↦ All-lookup P table name v there (ground arith)
]

module _ (env : Env) where
  -- An operation of the query protocol keeps both collections valid.
  abbrev KeepsQuery : (Params → String → State → ErrorResponse × State) → Type 0
  KeepsQuery operation =
      (params : Params) (request_id : String) → Keeps env (operation params request_id)

  abbrev KeepsJson : (Params → State → ErrorResponse × State) → Type 0
  KeepsJson operation = (params : Params) → Keeps env (operation params)

  get_queue_url-Keeps : KeepsQuery (get_queue_url env)
  unfolding get_queue_url
  get_queue_url-Keeps params request_id s h =
      elim (Option-cases (find_queue_by_name env s (param params "QueueName"))) [
        | inl absent ↦ rw (absent, get_queue_url) h
        | inr (queue, found) ↦ rw (found, get_queue_url) h
      ]

  get_queue_url_json-Keeps : KeepsJson (get_queue_url_json env)
  unfolding get_queue_url_json
  get_queue_url_json-Keeps params s h =
      elim (Option-cases (find_queue_by_name env s (param params "QueueName"))) [
        | inl absent ↦ rw (absent, get_queue_url_json) h
        | inr (queue, found) ↦ rw (found, get_queue_url_json) h
      ]

  query_operations-Keeps : All (λ entry. KeepsQuery entry.1) (query_operations env)
  unfolding query_operations delete_queue list_queues get_queue_attributes set_queue_attributes
      purge_queue tag_queue untag_queue list_queue_tags merge_queue_tags remove_queue_tags
  query_operations-Keeps =
      let on_queue =
        λ (operation : Fields → State → ErrorResponse × State) (params : Params)
            (request_id : String) (keeps : (queue : Fields) → Keeps env (operation queue)).
          with_queue-Keeps env (queue_not_found request_id) params operation keeps in
      (
        create_queue-Keeps env,
        (
          λ p r. on_queue _ p r (without_queue-IsSound env),
          (
            λ p r s h. h,
            (
              get_queue_url-Keeps,
              (
                λ p r. on_queue _ p r (λ queue s h. h),
                (
                  λ p r. on_queue _ p r (with_attributes-IsSound env p),
                  (
                    send_message-Keeps env,
                    (
                      send_message_batch-Keeps env,
                      (
                        receive_message-Keeps env,
                        (
                          delete_message-Keeps env,
                          (
                            delete_message_batch-Keeps env,
                            (
                              change_message_visibility-Keeps env,
                              (
                                change_message_visibility_batch-Keeps env,
                                (
                                  λ p r. on_queue _ p r (without_messages-IsSound env),
                                  (
                                    λ p r. on_queue _ p r (change_tags-IsSound env _),
                                    (
                                      λ p r. on_queue _ p r (change_tags-IsSound env _),
                                      (λ p r. on_queue _ p r (λ queue s h. h), tt),
                                    ),
                                  ),
                                ),
                              ),
                            ),
                          ),
                        ),
                      ),
                    ),
                  ),
                ),
              ),
            ),
          ),
        ),
      )

  json_operations-Keeps : All (λ entry. KeepsJson entry.1) (json_operations env)
  unfolding json_operations list_queues_json get_queue_attributes_json tag_queue_json
      untag_queue_json list_queue_tags_json merge_queue_tags remove_queue_tags
  json_operations-Keeps =
      let on_queue =
        λ (operation : Fields → State → ErrorResponse × State) (params : Params)
            (keeps : (queue : Fields) → Keeps env (operation queue)).
          with_queue-Keeps env queue_not_found_json params operation keeps in
      (
        create_queue_json-Keeps env,
        (
          delete_queue_json-Keeps env,
          (
            λ p s h. h,
            (
              get_queue_url_json-Keeps,
              (
                λ p. on_queue _ p (λ queue s h. h),
                (
                  set_queue_attributes_json-Keeps env,
                  (
                    send_message_json-Keeps env,
                    (
                      send_message_batch_json-Keeps env,
                      (
                        receive_message_json-Keeps env,
                        (
                          delete_message_json-Keeps env,
                          (
                            delete_message_batch_json-Keeps env,
                            (
                              change_message_visibility_json-Keeps env,
                              (
                                change_message_visibility_batch_json-Keeps env,
                                (
                                  purge_queue_json-Keeps env,
                                  (
                                    λ p. on_queue _ p (change_tags-IsSound env _),
                                    (
                                      λ p. on_queue _ p (change_tags-IsSound env _),
                                      (λ p. on_queue _ p (λ queue s h. h), tt),
                                    ),
                                  ),
                                ),
                              ),
                            ),
                          ),
                        ),
                      ),
                    ),
                  ),
                ),
              ),
            ),
          ),
        ),
      )

  chosen_request_id-Keeps : (ctx : AwsRequestContext) → Keeps env (chosen_request_id env ctx)
  unfolding chosen_request_id
  chosen_request_id-Keeps ctx s h = elim (Bool-cases (ctx.request_id == "")) [
    | inl missing ↦ rw (missing, chosen_request_id) h
    | inr given ↦ rw (given, chosen_request_id) h
  ]

  handle_json-Keeps : (ctx : AwsRequestContext) → Keeps env (handle_json env ctx)
  unfolding handle_json
  handle_json-Keeps ctx s h =
      let chosen = chosen_request_id-Keeps ctx s h in
      elim (Option-cases (lookup ctx.action (json_operations env))) [
        | inl unknown ↦ rw (unknown, handle_json) chosen
        | inr (operation, found) ↦
            rw (found, handle_json)
              (All-lookup KeepsJson (json_operations env) ctx.action operation json_operations-Keeps
                found (json_params env.platform ctx.action ctx.input)
                (chosen_request_id env ctx s).1 chosen)
      ]

  -- Whatever a request asks for, `Handle` keeps both collections valid.
  pub handle-Keeps :
      (ctx : AwsRequestContext) (s : State) → IsSound env s → IsSound env (handle env ctx s).1
  unfolding handle
  handle-Keeps ctx s h =
      let chosen = chosen_request_id-Keeps ctx s h in
      elim (Bool-cases ctx.is_json) [
        | inl json ↦ simp (json) (handle_json-Keeps ctx s h)
        | inr query ↦ elim (Option-cases (lookup ctx.action (query_operations env))) [
          | inl unknown ↦ rw (query, unknown, handle) chosen
          | inr (operation, found) ↦
              rw (query, found, handle)
                (All-lookup KeepsQuery (query_operations env) ctx.action operation
                  query_operations-Keeps found ctx.query (chosen_request_id env ctx s).0
                  (chosen_request_id env ctx s).1 chosen)
        ]
      ]

  -- The state after a list of requests.
  unfoldable pub after_requests : List AwsRequestContext → State → State
  after_requests [] s = s
  after_requests (ctx ∷ requests) s = after_requests requests (handle env ctx s).1

  -- After any requests, query or JSON, in any order, from valid collections, both collections are
  -- valid: their ids are distinct, each record has its id, and every index files exactly the
  -- records that are there.
  pub after_requests-IsSound :
      (requests : List AwsRequestContext) (s : State)
      → IsSound env s
      → IsSound env (after_requests requests s)
  unfolding after_requests
  after_requests-IsSound [] s h = h
  after_requests-IsSound (ctx ∷ requests) s h =
      after_requests-IsSound requests (handle env ctx s).1 (handle-Keeps ctx s h)
