-- ===== src/Sqs/Messages/Visibility/Timeout.antt =====
-- The visibility timeout of internal/services/aws/sqs/handler.go over sequences of operations.
use emulate.Prelude.{
  ◌≡◌, ◌≢◌, refl, inl, inr, ap, true, false, none, List, [], ◌∷◌, All, All-map, ℕ, zero, suc, arith,
  Option-cases, String, string_eq, ◌==◌,
}
use emulate.Prelude.Int.{
  ℤ, pos, negsuc, int_eq, int_less, succ, max_int, int_beq_iff, int_less_trans, int_less_irrefl,
}
use emulate.Prelude.Int64.{after_seconds}
use emulate.Prelude.Assoc.{lookup, lookup-put, lookup-erase}
use emulate.Store.Value.{Fields, get_field, numeric_id}
use emulate.Store.Collection.{Collection, insert_at, chosen_id, own_id, bump, delete, stamped}
use emulate.Store.Collection.Fresh.{IsFresh, insert-eq}
use emulate.Store.Collection.Invariant.{IsValid}
use emulate.Sqs.Fields.{int_field}
use emulate.Sqs.State.{Env, State}
use emulate.Sqs.Messages.{
  new_message, enqueue_message, messages_of, delete_each, with_receipt, delete_receipt_handle,
  receive, clamped,
}
use emulate.Sqs.Messages.Records.{
  IsSound, receive-IsSound, enqueue_message-IsSound, delete_receipt_handle-IsSound,
  delete_each-IsValid,
}
use emulate.Sqs.Messages.Visibility.Traffic.{Hidden, take_visible-Hidden, take_visible-hides}

less-succ : (a : ℤ) → a ≢ pos max_int → int_less a (succ a) ≡ true
unfolding succ
less-succ (pos n) h = let other : n ≢ max_int = λ e. h (ap pos e) in ground arith
less-succ (negsuc zero) h = refl
less-succ (negsuc (suc n)) h = ground arith

module _ (env : Env) where
  own_id-new_message :
      (queue : Fields) (body : String) (attributes : Fields) (delay : ℤ) (draw : ℕ)
      → own_id env.formats (new_message env queue body attributes delay draw) ≡ none
  unfolding own_id new_message get_field numeric_id
  own_id-new_message queue body attributes delay draw = refl

  enqueue_message-Hidden :
      (queue : Fields) (body : String) (attributes : Fields) (delay : ℤ) (s : State) (id until : ℤ)
      → s.messages.auto_id ≢ pos max_int
      → Hidden env id until s.messages
      → Hidden env id until (enqueue_message env queue body attributes delay s).1.messages
  unfolding enqueue_message insert_at chosen_id bump
  enqueue_message-Hidden queue body attributes delay s id until room (given, there) =
      let message = new_message env queue body attributes delay s.tick in
      let auto = s.messages.auto_id in
      let fresh : chosen_id env.formats s.messages message ≡ auto =
        rw (own_id-new_message queue body attributes delay s.tick, chosen_id) refl in
      let other : (id == auto) ≡ false =
        ground (arith, int_beq_iff id auto, int_less_irrefl auto) in
      rw (insert-eq env.formats (env.sources.timestamp s.tick) s.messages message, fresh)
        (
          ground (
            arith,
            int_less_irrefl auto,
            int_less_trans id auto (succ auto),
            less-succ auto room,
          ),
          λ item stored. there item (
              ground (
                arith,
                lookup-put auto id (stamped (env.sources.timestamp s.tick) auto message)
                    s.messages.items,
              )),
        )

  delete-Hidden :
      (c : Collection) (j id until : ℤ)
      → Hidden env id until c
      → Hidden env id until (delete env.formats c j).0
  unfolding delete
  delete-Hidden c j id until (given, there) = elim (Option-cases (lookup j c.items)) [
    | inl absent ↦ rw (absent, delete) (given, there)
    | inr (item, found) ↦
        rw (found, delete)
          (given, λ item stored. there item (ground (arith, lookup-erase j id c.items)))
  ]

  delete_each-Hidden :
      (messages : List Fields) (c : Collection) (id until : ℤ)
      → Hidden env id until c
      → Hidden env id until (delete_each env messages c)
  unfolding delete_each
  delete_each-Hidden [] c id until h = h
  delete_each-Hidden (message ∷ rest) c id until h =
      delete_each-Hidden rest _ id until
        (delete-Hidden c (int_field env.platform message "id") id until h)

  delete_receipt_handle-Hidden :
      (queue : Fields) (receipt : String) (s : State) (id until : ℤ)
      → Hidden env id until s.messages
      → Hidden env id until (delete_receipt_handle env queue receipt s).1.messages
  unfolding delete_receipt_handle
  delete_receipt_handle-Hidden queue receipt s id until h =
      elim (Option-cases (with_receipt env receipt (messages_of env queue s))) [
        | inl absent ↦ rw (absent, delete_receipt_handle) h
        | inr (message, found) ↦
            rw (found, delete_receipt_handle)
              (delete-Hidden s.messages (int_field env.platform message "id") id until h)
      ]

  -- What happens to the messages while the clock stays before `until`: sends while automatic ids
  -- last, receives, deletions of a message or of a queue's messages, and whatever leaves the
  -- messages as they are and the queues valid.
  pub data Traffic (until : ℤ) : State → State → Type 0 where
    quiet : (s : State) → Traffic until s s
    elsewhere :
        (s r t : State)
        → r.messages ≡ s.messages
        → IsValid env.formats r.queues
        → Traffic until r t
        → Traffic until s t
    sent :
        (queue : Fields) (body : String) (attributes : Fields) (delay : ℤ) (s t : State)
        → s.messages.auto_id ≢ pos max_int
        → Traffic until (enqueue_message env queue body attributes delay s).1 t
        → Traffic until s t
    received :
        (queue : Fields) (limit timeout : ℤ) (s t : State)
        → int_less (env.sources.now_millis s.tick) until ≡ true
        → Traffic until (receive env queue limit timeout s).1 t
        → Traffic until s t
    deleted :
        (queue : Fields) (receipt : String) (s t : State)
        → Traffic until (delete_receipt_handle env queue receipt s).1 t
        → Traffic until s t
    purged :
        (messages : List Fields) (s t : State)
        → Traffic until (record s { messages = delete_each env messages s.messages }) t
        → Traffic until s t

  receive-Hidden :
      (queue : Fields) (limit timeout : ℤ) (s : State) (id until : ℤ)
      → IsSound env s
      → int_less (env.sources.now_millis s.tick) until ≡ true
      → Hidden env id until s.messages
      → Hidden env id until (receive env queue limit timeout s).1.messages
        × All (λ out. int_field env.platform out "id" ≢ id) (receive env queue limit timeout s).0
  unfolding receive
  receive-Hidden queue limit timeout s id until v early h =
      take_visible-Hidden env (env.sources.now_millis s.tick) timeout (clamped limit)
        (messages_of env queue s) (record s { tick = suc s.tick }) id until v early h

  -- What holds of the messages at the end of the traffic.
  Traffic-Hidden :
      (id until : ℤ) (s t : State)
      → Traffic until s t
      → IsSound env s
      → Hidden env id until s.messages
      → Hidden env id until t.messages × IsSound env t
  Traffic-Hidden id until s t (quiet _) v h = (h, v)
  Traffic-Hidden id until s t (elsewhere _ r _ same queues rest) v h =
      Traffic-Hidden id until r t rest (queues, rw (same) v.1) (rw (same) h)
  Traffic-Hidden id until s t (sent queue body attributes delay _ _ room rest) v h =
      Traffic-Hidden id until _ t rest (enqueue_message-IsSound env queue body attributes delay s v)
        (enqueue_message-Hidden queue body attributes delay s id until room h)
  Traffic-Hidden id until s t (received queue limit timeout _ _ early rest) v h =
      Traffic-Hidden id until _ t rest (receive-IsSound env queue limit timeout s v)
        (receive-Hidden queue limit timeout s id until v early h).0
  Traffic-Hidden id until s t (deleted queue receipt _ _ rest) v h =
      Traffic-Hidden id until _ t rest (delete_receipt_handle-IsSound env queue receipt s v)
        (delete_receipt_handle-Hidden queue receipt s id until h)
  Traffic-Hidden id until s t (purged messages _ _ rest) v h =
      Traffic-Hidden id until _ t rest (v.0, delete_each-IsValid env messages s.messages v.1)
        (delete_each-Hidden messages s.messages id until h)

  -- A message that was received is not received again while the clock reads less than the time at
  -- which its visibility timeout ends, whatever messages are sent, received and deleted in between.
  -- The automatic ids must not run out, and the first receive needs valid collections whose message
  -- ids are below the next one, and a timeout that lies ahead.
  pub receive_hides :
      (queue again : Fields) (limit limit_again timeout timeout_again : ℤ) (s t : State)
      → IsSound env s
      → IsFresh s.messages
      → int_less
          (env.sources.now_millis s.tick)
          (after_seconds (env.sources.now_millis s.tick) timeout)
        ≡ true
      → Traffic
          (after_seconds (env.sources.now_millis s.tick) timeout)
          (receive env queue limit timeout s).1
          t
      → int_less
          (env.sources.now_millis t.tick)
          (after_seconds (env.sources.now_millis s.tick) timeout)
        ≡ true
      → All
          (λ out.
            All
              (λ later. int_field env.platform later "id" ≢ int_field env.platform out "id")
              (receive env again limit_again timeout_again t).0)
          (receive env queue limit timeout s).0
  unfolding receive
  receive_hides queue again limit limit_again timeout timeout_again s t v fresh ahead traffic
        early =
      let now = env.sources.now_millis s.tick in
      let until = after_seconds now timeout in
      All-map
        (λ out hid.
          let (still, sound) =
            Traffic-Hidden (int_field env.platform out "id") until
              (receive env queue limit timeout s).1 t traffic
              (receive-IsSound env queue limit timeout s v) hid in
          (receive-Hidden again limit_again timeout_again t (int_field env.platform out "id") until
            sound early still).1)
        (receive env queue limit timeout s).0
        (take_visible-hides env now timeout (clamped limit) (messages_of env queue s)
          (record s { tick = suc s.tick }) v ahead (λ id item stored. (fresh.ids id item stored).1))
