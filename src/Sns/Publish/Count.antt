-- ===== src/Sns/Publish/Count.antt =====
-- How many messages `publish` of internal/services/aws/sns/handler.go puts into queues.
use emulate.Prelude.{
  ◌≡◌, ◌≢◌, refl, sym, ◌∙◌, inl, inr, Bool, ◌&&◌, not, none, List, [], ◌∷◌, filter, length, ℕ, suc,
  ◌+◌, ◌<◌, arith, Option-cases, Bool-cases, String, string_eq, ◌==◌, if◌then◌else◌,
}
use emulate.Prelude.Int.{pos, int_less, succ, max_int}
use emulate.Store.Value.{Fields, end, get_field, numeric_id}
use emulate.Store.Collection.{Collection, insert, insert_at, chosen_id, own_id, bump, count}
use emulate.Store.Collection.Fresh.{IsFresh, insert-eq, insert-IsFresh, insert_new}
use emulate.Sqs.Fields.{bool_field, int_field, byte_length}
use emulate.Sns.Fields.{string_field}
use emulate.Sns.State.{Env, State, Request, find_sqs_queue}
use emulate.Sns.Envelope.{Message, is_json, is_raw, sqs_body}
use emulate.Sns.Publish.{
  sqs_message, insert_delivery, deliver_to_queue, deliver_body, deliver_stub,
  deliver_to_subscription, deliver_each,
}

-- Ids are fresh, and there are this many left at least.
abbrev pub HasRoom : ℕ → Collection → Type 0
HasRoom n c = IsFresh c × (a : ℕ) × (c.auto_id ≡ pos a) × (a + n < max_int)

module _ (env : Env) where
  -- A confirmed subscription that is no queue: its delivery is only noted.
  abbrev pub is_stub : Fields → Bool
  is_stub subscription =
      bool_field subscription "confirmed"
      && not (string_field env.platform subscription "protocol" == "sqs")

  own_id-sqs_message :
      (ctx : Request) (queue : Fields) (body : String) (attrs : Fields) (draw : ℕ)
      → own_id env.formats (sqs_message env ctx queue body attrs draw) ≡ none
  unfolding own_id sqs_message get_field numeric_id
  own_id-sqs_message ctx queue body attrs draw = refl

  insert-HasRoom :
      (now : String) (c : Collection) (item : Fields) (n : ℕ)
      → own_id env.formats item ≡ none
      → HasRoom (suc n) c
      → HasRoom n (insert env.formats now c item).0
        × (count (insert env.formats now c item).0 ≡ suc (count c))
  unfolding chosen_id insert_at bump succ
  insert-HasRoom now c item n unnamed (fresh, a, auto, room) =
      let chosen : chosen_id env.formats c item ≡ pos a = rw (unnamed, chosen_id) auto in
      let last : chosen_id env.formats c item ≢ pos max_int =
        λ same. let eq : pos a ≡ pos max_int = sym chosen ∙ same in ground arith in
      let (absent, counted) = insert_new env.formats now c item fresh unnamed in
      (
        (
          insert-IsFresh env.formats now c item fresh last,
          a + 1,
          rw (insert-eq env.formats now c item, chosen) (ground arith),
          omega arith,
        ),
        ground (arith, counted),
      )

  weaker : (n : ℕ) (c : Collection) → HasRoom (suc n) c → HasRoom n c
  weaker n c (fresh, a, auto, room) = (fresh, a, auto, omega arith)

  -- A delivery to a queue adds one message, or fails and adds none.
  deliver_body-count :
      (ctx : Request) (topic subscription : Fields) (message : Message) (queue : Fields) (s : State)
      (n : ℕ)
      → HasRoom (suc n) s.sqs_messages
      → HasRoom n (deliver_body env ctx topic subscription message queue s).1.sqs_messages
        × (count (deliver_body env ctx topic subscription message queue s).1.sqs_messages ≡ (
            if (deliver_body env ctx topic subscription message queue s).0
            then suc (count s.sqs_messages)
            else count s.sqs_messages))
  unfolding deliver_body deliver_to_queue insert_delivery
  deliver_body-count ctx topic subscription message queue s n room =
      let envelope_attrs = if is_json env message then end else message.attributes in
      let sqs_attrs = if is_raw env subscription then envelope_attrs else end in
      let body = sqs_body env topic subscription message envelope_attrs s.tick in
      elim (Bool-cases
        (int_less (int_field env.platform queue "max_message_size") (pos (byte_length body)))) [
          | inl long ↦ rw (long, deliver_body) (weaker n s.sqs_messages room, refl)
          | inr fits ↦
              rw (fits, deliver_body)
                (insert-HasRoom (env.sources.timestamp s.tick) s.sqs_messages
                  (sqs_message env ctx queue body sqs_attrs s.tick) n
                  (own_id-sqs_message ctx queue body sqs_attrs s.tick) room)
        ]

  deliver-count :
      (ctx : Request) (topic : Fields) (message : Message) (subscription : Fields) (s : State)
      (n : ℕ)
      → HasRoom (suc n) s.sqs_messages
      → HasRoom n (deliver_to_subscription env ctx topic message subscription s).1.sqs_messages
        × (count (deliver_to_subscription env ctx topic message subscription s).1.sqs_messages
              + (if string_field env.platform subscription "protocol" == "sqs" then 0 else 1)
            ≡ count s.sqs_messages
              + (if (deliver_to_subscription env ctx topic message subscription s).0 then 1 else 0))
  unfolding deliver_to_subscription deliver_stub insert_delivery
  deliver-count ctx topic message subscription s n room =
      elim (Bool-cases (string_field env.platform subscription "protocol" == "sqs")) [
        | inl sqs ↦
            elim (Option-cases
              (find_sqs_queue env (string_field env.platform subscription "endpoint") s)) [
                | inl absent ↦
                    rw (sqs, absent, deliver_to_subscription) (weaker n s.sqs_messages room, refl)
                | inr (queue, found) ↦
                    let (left, added) =
                      deliver_body-count ctx topic subscription message queue s n room in
                    rw (sqs, found, deliver_to_subscription) (left, ground arith)
              ]
        | inr other ↦ rw (other, deliver_to_subscription) (weaker n s.sqs_messages room, refl)
      ]

  -- The number that `publish` notes as delivered counts the messages that it put into queues and
  -- the deliveries to other endpoints, which it only notes: nothing else is put into a queue, and
  -- nothing is counted twice. The ids of the messages must last.
  pub deliver_each-count :
      (ctx : Request) (topic : Fields) (message : Message) (subscriptions : List Fields)
      (delivered : ℕ) (s : State)
      → HasRoom (length subscriptions) s.sqs_messages
      → count (deliver_each env ctx topic message subscriptions (delivered, s)).1.sqs_messages
          + length (filter is_stub subscriptions)
          + delivered
        ≡ count s.sqs_messages + (deliver_each env ctx topic message subscriptions (delivered, s)).0
  unfolding deliver_each filter
  deliver_each-count ctx topic message [] delivered s room = omega arith
  deliver_each-count ctx topic message (subscription ∷ rest) delivered s room =
      let n = length rest in
      let attempt = deliver_to_subscription env ctx topic message subscription s in
      let (left, one) = deliver-count ctx topic message subscription s n room in
      elim (Bool-cases (bool_field subscription "confirmed")) [
        | inl confirmed ↦ elim (Bool-cases attempt.0) [
          | inl reached ↦
              let rec = deliver_each-count ctx topic message rest (suc delivered) attempt.1 left in
              rw (confirmed, reached, deliver_each, filter) (ground arith)
          | inr lost ↦
              let rec = deliver_each-count ctx topic message rest delivered attempt.1 left in
              rw (confirmed, lost, deliver_each, filter) (ground arith)
        ]
        | inr pending ↦
            let rec =
              deliver_each-count ctx topic message rest delivered s
                (weaker n s.sqs_messages room) in
            rw (pending, deliver_each, filter) rec
      ]
