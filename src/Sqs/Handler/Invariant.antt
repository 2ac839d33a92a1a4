-- ===== src/Sqs/Handler/Invariant.antt =====
-- Every request to internal/services/aws/sqs/handler.go keeps both collections valid.
use emulate.Prelude.{
  inl, inr, Option, none, some, List, [], ◌∷◌, suc, Option-cases, Bool-cases, String, string_eq,
  ◌==◌, for_each,
}
use emulate.Store.Value.{Fields}
use emulate.Store.Collection.{Collection, delete}
use emulate.Store.Collection.Invariant.{
  IsValid, changed, insert-IsValid, update-IsValid, update_func-IsValid, delete-IsValid,
}
use emulate.Protocols.Errors.{ErrorResponse}
use emulate.Sqs.Fields.{int_field}
use emulate.Sqs.Params.{Params, param}
use emulate.Sqs.State.{Env, State, find_queue_by_url, find_queue_by_name}
use emulate.Sqs.Messages.{messages_of}
use emulate.Sqs.Messages.Records.{IsSound, delete_each-IsValid, for_each-delete}
use emulate.Sqs.Batch.{Step, each_entry}
use emulate.Sqs.Queues.{
  with_queues, with_queue, insert_queue, create_queue, without_messages, without_queue,
  with_attributes,
}
use emulate.Sqs.Queues.Tags.{change_tags}
use emulate.Sqs.Response.{queue_not_found_json}
use emulate.Sqs.Queues.Json.{
  create_queue_json, delete_queue_json, purge_queue_json, set_queue_attributes_json,
}

-- An operation keeps both collections valid.
abbrev pub Keeps : Env → {A : Type 0} → (State → A × State) → Type 0
Keeps env operation = (s : State) → IsSound env s → IsSound env (operation s).1

module _ (env : Env) where
  pub with_queue-Keeps :
      (missing : ErrorResponse) (params : Params)
      (operation : Fields → State → ErrorResponse × State)
      → ((queue : Fields) → Keeps env (operation queue))
      → Keeps env (with_queue env missing params operation)
  unfolding with_queue
  with_queue-Keeps missing params operation keeps s h =
      elim (Option-cases (find_queue_by_url env s (param params "QueueUrl"))) [
        | inl absent ↦ rw (absent, with_queue) h
        | inr (queue, found) ↦ rw (found, with_queue) (keeps queue s h)
      ]

  with_queues-IsSound :
      (o : Option (Collection × Fields)) (s : State)
      → IsValid env.formats (changed s.queues o)
      → IsValid env.formats s.messages
      → IsSound env (with_queues o s)
  unfolding with_queues
  with_queues-IsSound none s q m = (q, m)
  with_queues-IsSound (some (c, out)) s q m = (q, m)

  pub each_entry-Keeps :
      {A : Type 0} (step : String → State → Step A × State) (prefixes : List String)
      → ((prefix : String) → Keeps env (step prefix))
      → Keeps env (each_entry step prefixes)
  unfolding each_entry
  each_entry-Keeps step [] keeps s h = h
  each_entry-Keeps step (prefix ∷ prefixes) keeps s h =
      each_entry-Keeps step prefixes keeps (step prefix s).1 (keeps prefix s h)

  insert_queue-Keeps : (params : Params) → Keeps env (insert_queue env params)
  unfolding insert_queue
  insert_queue-Keeps params s (q, m) =
      (insert-IsValid env.formats (env.sources.timestamp s.tick) s.queues _ q, m)

  pub create_queue-Keeps :
      (params : Params) (request_id : String) → Keeps env (create_queue env params request_id)
  unfolding create_queue
  create_queue-Keeps params request_id s h =
      let kept = insert_queue-Keeps params s h in
      elim (Bool-cases (param params "QueueName" == "")) [
        | inl unnamed ↦ rw (unnamed, create_queue) h
        | inr named ↦ elim (Option-cases (find_queue_by_name env s (param params "QueueName"))) [
          | inl fresh ↦ rw (named, fresh, create_queue) kept
          | inr (queue, found) ↦ rw (named, found, create_queue) h
        ]
      ]

  pub create_queue_json-Keeps : (params : Params) → Keeps env (create_queue_json env params)
  unfolding create_queue_json
  create_queue_json-Keeps params s h =
      let kept = insert-IsValid env.formats (env.sources.timestamp s.tick) s.queues _ h.0 in
      elim (Bool-cases (param params "QueueName" == "")) [
        | inl unnamed ↦ rw (unnamed, create_queue_json) h
        | inr named ↦ elim (Option-cases (find_queue_by_name env s (param params "QueueName"))) [
          | inl fresh ↦ rw (named, fresh, create_queue_json) (kept, h.1)
          | inr (queue, found) ↦ rw (named, found, create_queue_json) h
        ]
      ]

  pub without_messages-IsSound :
      (queue : Fields) (s : State) → IsSound env s → IsSound env (without_messages env queue s)
  unfolding without_messages
  without_messages-IsSound queue s (q, m) =
      (q, delete_each-IsValid env (messages_of env queue s) s.messages m)

  -- The loops of the other operations, which delete the same messages.
  pub emptied-IsSound :
      (queue : Fields) (s : State)
      → IsSound env s
      → IsSound env (record s {
        messages =
            for_each
              (λ message c. (delete env.formats c (int_field env.platform message "id")).0)
              (messages_of env queue s)
              s.messages;
      })
  unfolding without_messages
  emptied-IsSound queue s h =
      rw (for_each-delete env (messages_of env queue s) s.messages)
        (without_messages-IsSound queue s h)

  pub without_queue-IsSound :
      (queue : Fields) (s : State) → IsSound env s → IsSound env (without_queue env queue s)
  unfolding without_queue
  without_queue-IsSound queue s h =
      let (q, m) = emptied-IsSound queue s h in
      (delete-IsValid env.formats s.queues (int_field env.platform queue "id") h.0, m)

  pub delete_queue_json-Keeps : (params : Params) → Keeps env (delete_queue_json env params)
  unfolding delete_queue_json
  delete_queue_json-Keeps params = with_queue-Keeps queue_not_found_json params _ (λ queue s h.
      let (q, m) = emptied-IsSound queue s h in
      (delete-IsValid env.formats s.queues (int_field env.platform queue "id") q, m))

  pub purge_queue_json-Keeps : (params : Params) → Keeps env (purge_queue_json env params)
  unfolding purge_queue_json
  purge_queue_json-Keeps params = with_queue-Keeps queue_not_found_json params _ emptied-IsSound

  pub set_queue_attributes_json-Keeps :
      (params : Params) → Keeps env (set_queue_attributes_json env params)
  unfolding set_queue_attributes_json
  set_queue_attributes_json-Keeps params =
      with_queue-Keeps queue_not_found_json params _ (λ queue s (q, m).
        with_queues-IsSound _ (record s { tick = suc s.tick })
          (update-IsValid env.formats (env.sources.timestamp s.tick) s.queues
            (int_field env.platform queue "id") _ q)
          m)

  pub with_attributes-IsSound :
      (params : Params) (queue : Fields) (s : State)
      → IsSound env s
      → IsSound env (with_attributes env params queue s)
  unfolding with_attributes
  with_attributes-IsSound params queue s (q, m) =
      with_queues-IsSound _ (record s { tick = suc s.tick })
        (update-IsValid env.formats (env.sources.timestamp s.tick) s.queues
          (int_field env.platform queue "id") _ q)
        m

  pub change_tags-IsSound :
      (change : Fields → Fields) (queue : Fields) (s : State)
      → IsSound env s
      → IsSound env (change_tags env change queue s)
  unfolding change_tags
  change_tags-IsSound change queue s (q, m) =
      with_queues-IsSound _ (record s { tick = suc s.tick })
        (update_func-IsValid env.formats (env.sources.timestamp s.tick) s.queues
          (int_field env.platform queue "id") _ q)
        m
