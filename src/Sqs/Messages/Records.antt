-- ===== src/Sqs/Messages/Records.antt =====
-- Both collections of internal/services/aws/sqs/handler.go stay valid under the operations on
-- messages.
use emulate.Prelude.{
  ◌≡◌, refl, inl, inr, Option, none, some, List, [], ◌∷◌, for_each, ℕ, zero, suc, Option-cases,
  Bool-cases, String,
}
use emulate.Prelude.Int.{ℤ, int_less}
use emulate.Store.Value.{Fields}
use emulate.Store.Collection.{Collection, delete}
use emulate.Store.Collection.Invariant.{
  IsValid, changed, insert-IsValid, update-IsValid, update_func-IsValid, delete-IsValid,
}
use emulate.Sqs.Fields.{int_field, int64_field}
use emulate.Sqs.State.{Env, State}
use emulate.Sqs.Messages.{
  updated, noted, enqueue_message, messages_of, reserve_visible_message, take_visible, delete_each,
  with_receipt, delete_receipt_handle, change_receipt_visibility, receive, clamped,
}

-- Both collections are valid.
abbrev pub IsSound : Env → State → Type 0
IsSound env s = IsValid env.formats s.queues × IsValid env.formats s.messages

module _ (env : Env) where
  updated-IsSound :
      (o : Option (Collection × Fields)) (s : State)
      → IsValid env.formats s.queues
      → IsValid env.formats (changed s.messages o)
      → IsSound env (updated o s).1
  unfolding updated
  updated-IsSound none s q m = (q, m)
  updated-IsSound (some (c, out)) s q m = (q, m)

  noted-IsSound :
      (o : Option (Collection × Fields)) (s : State)
      → IsValid env.formats s.queues
      → IsValid env.formats (changed s.messages o)
      → IsSound env (noted o s).1
  unfolding noted
  noted-IsSound none s q m = (q, m)
  noted-IsSound (some (c, out)) s q m = (q, m)

  pub enqueue_message-IsSound :
      (queue : Fields) (body : String) (attributes : Fields) (delay : ℤ) (s : State)
      → IsSound env s
      → IsSound env (enqueue_message env queue body attributes delay s).1
  unfolding enqueue_message
  enqueue_message-IsSound queue body attributes delay s (q, m) =
      (q, insert-IsValid env.formats (env.sources.timestamp s.tick) s.messages _ m)

  pub reserve-IsSound :
      (message : Fields) (now timeout : ℤ) (s : State)
      → IsSound env s
      → IsSound env (reserve_visible_message env message now timeout s).1
  unfolding reserve_visible_message
  reserve-IsSound message now timeout s (q, m) =
      updated-IsSound _ (record s { tick = suc s.tick }) q
        (update_func-IsValid env.formats (env.sources.timestamp s.tick) s.messages _ _ m)

  pub take_visible-IsSound :
      (now timeout : ℤ) (room : ℕ) (messages : List Fields) (s : State)
      → IsSound env s
      → IsSound env (take_visible env now timeout room messages s).1
  unfolding take_visible
  take_visible-IsSound now timeout zero [] s h = h
  take_visible-IsSound now timeout (suc room) [] s h = h
  take_visible-IsSound now timeout zero (message ∷ rest) s h = h
  take_visible-IsSound now timeout (suc room) (message ∷ rest) s h =
      let reserved = reserve_visible_message env message now timeout s in
      let later = reserve-IsSound message now timeout s h in
      elim (Bool-cases (int_less now (int64_field env.platform message "visible_after"))) [
        | inl hidden ↦
            rw (hidden, take_visible) (take_visible-IsSound now timeout (suc room) rest s h)
        | inr visible ↦ elim (Option-cases reserved.0) [
          | inl lost ↦
              rw (visible, lost, take_visible)
                (take_visible-IsSound now timeout (suc room) rest reserved.1 later)
          | inr (out, taken) ↦
              rw (visible, taken, take_visible)
                (take_visible-IsSound now timeout room rest reserved.1 later)
        ]
      ]

  pub receive-IsSound :
      (queue : Fields) (limit timeout : ℤ) (s : State)
      → IsSound env s
      → IsSound env (receive env queue limit timeout s).1
  unfolding receive
  receive-IsSound queue limit timeout s h =
      take_visible-IsSound (env.sources.now_millis s.tick) timeout (clamped limit)
        (messages_of env queue s) (record s { tick = suc s.tick }) h

  -- A loop that deletes messages by their ids.
  pub for_each-delete :
      (messages : List Fields) (c : Collection)
      → for_each
          (λ message c. (delete env.formats c (int_field env.platform message "id")).0)
          messages
          c
        ≡ delete_each env messages c
  unfolding for_each delete_each
  for_each-delete [] c = refl
  for_each-delete (message ∷ rest) c = for_each-delete rest _

  pub delete_each-IsValid :
      (messages : List Fields) (c : Collection)
      → IsValid env.formats c
      → IsValid env.formats (delete_each env messages c)
  unfolding delete_each
  delete_each-IsValid [] c v = v
  delete_each-IsValid (message ∷ rest) c v =
      delete_each-IsValid rest _
        (delete-IsValid env.formats c (int_field env.platform message "id") v)

  pub delete_receipt_handle-IsSound :
      (queue : Fields) (receipt : String) (s : State)
      → IsSound env s
      → IsSound env (delete_receipt_handle env queue receipt s).1
  unfolding delete_receipt_handle
  delete_receipt_handle-IsSound queue receipt s (q, m) =
      elim (Option-cases (with_receipt env receipt (messages_of env queue s))) [
        | inl absent ↦ rw (absent, delete_receipt_handle) (q, m)
        | inr (message, found) ↦
            rw (found, delete_receipt_handle)
              (q, delete-IsValid env.formats s.messages (int_field env.platform message "id") m)
      ]

  pub change_receipt_visibility-IsSound :
      (queue : Fields) (receipt : String) (timeout : ℤ) (s : State)
      → IsSound env s
      → IsSound env (change_receipt_visibility env queue receipt timeout s).1
  unfolding change_receipt_visibility
  change_receipt_visibility-IsSound queue receipt timeout s (q, m) =
      elim (Option-cases (with_receipt env receipt (messages_of env queue s))) [
        | inl absent ↦ rw (absent, change_receipt_visibility) (q, m)
        | inr (message, found) ↦
            rw (found, change_receipt_visibility)
              (noted-IsSound _ (record s { tick = suc s.tick }) q
                (update-IsValid env.formats (env.sources.timestamp s.tick) s.messages
                  (int_field env.platform message "id") _ m))
      ]
