-- ===== src/Sqs/Messages/Removal.antt =====
-- What `purgeQueue` and `deleteQueue` of internal/services/aws/sqs/handler.go do to the messages.
use emulate.Prelude.{
  ◌≡◌, refl, sym, ap, ◌∙◌, ◌==◌, inl, inr, Bool, true, Option, none, some, List, [], ◌∷◌, ◌&&◌, map,
  filter, contains, All, arith, Option-cases, String, string_eq, if◌then◌else◌,
}
use emulate.Prelude.Int.{ℤ, int_eq, int_order, int_beq_iff}
use emulate.Prelude.Assoc.{lookup, lookup-erase, is_some, keys, contains-keys}
use emulate.Prelude.Sort.{sort, contains-sort, All-of_contains}
use emulate.Store.Value.{Fields}
use emulate.Store.Value.Laws.{clone_record-eq}
use emulate.Store.Collection.{Collection, copy_at, all_records, delete, get}
use emulate.Store.Collection.Access.{get-delete}
use emulate.Store.Collection.Find.{has_key}
use emulate.Store.Collection.Invariant.{IsValid}
use emulate.Sqs.Fields.{int_field}
use emulate.Sqs.State.{Env, State, find_queue_by_url}
use emulate.Sqs.Messages.{messages_of, delete_each}
use emulate.Sqs.Messages.Listed.{id_of, queue_key, messages_of-eq, id_of-copy_at}
use emulate.Sqs.Messages.Records.{for_each-delete}
use emulate.Sqs.Params.{Params, param}
use emulate.Sqs.Queues.{with_queue, without_messages, without_queue, purge_queue, delete_queue}
use emulate.Sqs.Queues.Json.{purge_queue_json, delete_queue_json}

-- The message under an id once the messages of the queue, if there is one, are gone: none that is
-- filed under the queue's name.
abbrev pub message_left : Env → Option Fields → State → ℤ → Option Fields
message_left env none s j = get env.formats s.messages j
message_left env (some queue) s j = elim (get env.formats s.messages j) [
  | none ↦ none
  | some item ↦
      if has_key env.formats "queue_name" (queue_key env queue) item then none else some item
]

-- The queue under an id once the queue, if there is one, is gone.
abbrev pub queue_left : Env → Option Fields → State → ℤ → Option Fields
queue_left env none s j = get env.formats s.queues j
queue_left env (some queue) s j =
    if j == int_field env.platform queue "id" then none else get env.formats s.queues j

module _ (env : Env) where
  lookup-delete_each :
      (messages : List Fields) (c : Collection) (j : ℤ)
      → lookup j (delete_each env messages c).items
        ≡ (if contains j (map (id_of env.platform) messages) then none else lookup j c.items)
  unfolding delete_each delete contains
  lookup-delete_each [] c j = refl
  lookup-delete_each (message ∷ rest) c j =
      let id = id_of env.platform message in
      rw (lookup-delete_each rest (delete env.formats c id).0 j)
        (elim (Option-cases (lookup id c.items)) [
          | inl absent ↦ ground (arith, int_beq_iff j id)
          | inr (item, found) ↦ ground (arith, lookup-erase id j c.items, int_beq_iff j id)
        ])

  -- Among ids that are stored, those of the records that pass a test.
  contains-filter-copies :
      (c : Collection) (p : Fields → Bool) (j : ℤ) (ids : List ℤ)
      → IsValid env.formats c
      → All (λ id. is_some (lookup id c.items) ≡ true) ids
      → contains j (map (id_of env.platform) (filter p (map (copy_at c.items) ids)))
        ≡ (contains j ids && p (copy_at c.items j))
  unfolding contains filter
  contains-filter-copies c p j [] v h = refl
  contains-filter-copies c p j (id ∷ ids) v (here, there) =
      let (same, found) = id_of-copy_at env.formats env.platform c id v here in
      ground (arith, contains-filter-copies c p j ids v there, int_beq_iff j id)

  -- A message of the queue is deleted, and no other record is.
  deleted-eq :
      (queue : Fields) (s : State) (j : ℤ)
      → IsValid env.formats s.messages
      → contains "queue_name" s.messages.index_fields ≡ true
      → contains j (map (id_of env.platform) (messages_of env queue s)) ≡ (
          contains j (sort (keys s.messages.items))
          && has_key env.formats "queue_name" (queue_key env queue) (copy_at s.messages.items j))
  unfolding all_records
  deleted-eq queue s j v indexed = rw (messages_of-eq env queue s v indexed) (
      contains-filter-copies s.messages (has_key env.formats "queue_name" (queue_key env queue)) j
        (sort (keys s.messages.items)) v
        (All-of_contains (sort (keys s.messages.items)) (λ id there.
          sym (contains-keys id s.messages.items)
          ∙ sym (contains-sort id (keys s.messages.items))
          ∙ there)))

  -- The messages of the queue are gone, and those of other queues are as they were.
  get-without_messages :
      (queue : Fields) (s : State) (j : ℤ)
      → IsValid env.formats s.messages
      → contains "queue_name" s.messages.index_fields ≡ true
      → get env.formats (without_messages env queue s).messages j
        ≡ elim (get env.formats s.messages j) [
          | none ↦ none
          | some item ↦
              if has_key env.formats "queue_name" (queue_key env queue) item
              then none
              else some item
        ]
  unfolding without_messages get copy_at
  get-without_messages queue s j v indexed = elim (Option-cases (lookup j s.messages.items)) [
    | inl absent ↦ ground (arith, lookup-delete_each (messages_of env queue s) s.messages j)
    | inr (item, found) ↦ ground (
      arith,
      lookup-delete_each (messages_of env queue s) s.messages j,
      deleted-eq queue s j v indexed,
      contains-keys j s.messages.items,
      contains-sort j (keys s.messages.items),
      clone_record-eq item,
    )
  ]

  -- `PurgeQueue` deletes the messages that are filed under the name of the queue at QueueUrl and
  -- no others, and keeps all queues; `DeleteQueue` deletes the same messages and, of the queues,
  -- that one alone. Both protocols do so, for every id, and where there is no such queue nothing is
  -- deleted. The collection of messages is valid and has its index by queue_name.
  pub get-purge_queue :
      (params : Params) (request_id : String) (s : State) (j : ℤ)
      → IsValid env.formats s.messages
      → contains "queue_name" s.messages.index_fields ≡ true
      → (get env.formats (purge_queue env params request_id s).1.messages j
          ≡ message_left env (find_queue_by_url env s (param params "QueueUrl")) s j)
        × (get env.formats (purge_queue_json env params s).1.messages j
            ≡ message_left env (find_queue_by_url env s (param params "QueueUrl")) s j)
        × (get env.formats (delete_queue env params request_id s).1.messages j
            ≡ message_left env (find_queue_by_url env s (param params "QueueUrl")) s j)
        × (get env.formats (delete_queue_json env params s).1.messages j
            ≡ message_left env (find_queue_by_url env s (param params "QueueUrl")) s j)
        × ((purge_queue env params request_id s).1.queues ≡ s.queues)
        × ((purge_queue_json env params s).1.queues ≡ s.queues)
        × (get env.formats (delete_queue env params request_id s).1.queues j
            ≡ queue_left env (find_queue_by_url env s (param params "QueueUrl")) s j)
        × (get env.formats (delete_queue_json env params s).1.queues j
            ≡ queue_left env (find_queue_by_url env s (param params "QueueUrl")) s j)
  unfolding purge_queue purge_queue_json delete_queue delete_queue_json with_queue without_queue
      without_messages get
  get-purge_queue params request_id s j v indexed =
      elim (Option-cases (find_queue_by_url env s (param params "QueueUrl"))) [
        | inl absent ↦ rw (absent, with_queue) (refl, refl, refl, refl, refl, refl, refl, refl)
        | inr (queue, found) ↦
            let left = get-without_messages queue s j v indexed in
            let looped =
              ap (λ c. get env.formats c j)
                (for_each-delete env (messages_of env queue s) s.messages)
              ∙ left in
            let dropped =
              (get-delete env.formats s.queues (int_field env.platform queue "id") j).0 in
            rw (found, with_queue) (left, looped, looped, looped, refl, refl, dropped, dropped)
      ]
