-- ===== src/Sqs/Messages/Visibility/Selection.antt =====
-- Which messages `receiveMessage` of internal/services/aws/sqs/handler.go takes.
use emulate.Prelude.{
  ◌≡◌, refl, inl, inr, ap₂, Bool, true, false, not, List, [], ◌∷◌, map, filter, contains, take, ℕ,
  zero, suc, arith, Bool-cases, string_eq,
}
use emulate.Prelude.Int.{ℤ, int_eq, int_less, int_beq_iff}
use emulate.Store.Value.{Fields}
use emulate.Sqs.Fields.{int64_field}
use emulate.Sqs.State.{Env, State}
use emulate.Sqs.Messages.{messages_of, reserve_visible_message, take_visible, receive, clamped}
use emulate.Sqs.Messages.Records.{IsSound, reserve-IsSound}
use emulate.Sqs.Messages.Listed.{id_of, Listing, messages_of-Listing}
use emulate.Sqs.Messages.Visibility.{Reserved, reserve-cases}

-- A message that may be received at the time.
abbrev pub visible_at : Env → ℤ → Fields → Bool
visible_at env now message = not (int_less now (int64_field env.platform message "visible_after"))

module _ (env : Env) where
  -- A reservation of one message leaves the others as they are.
  Reserved-Listing :
      (now timeout id : ℤ) (s t : State) (out : Fields) (messages : List Fields)
      → Reserved env now timeout id s t out
      → contains id (map (id_of env.platform) messages) ≡ false
      → Listing env.platform s.messages.items messages
      → Listing env.platform t.messages.items messages
  unfolding contains
  Reserved-Listing now timeout id s t out [] r fresh h = h
  Reserved-Listing now timeout id s t out (message ∷ rest) r fresh
        ((here, there), (new, distinct)) =
      let j = id_of env.platform message in
      let (later, _) =
        Reserved-Listing now timeout id s t out rest r (ground arith) (there, distinct) in
      ((ground (arith, r.items j, int_beq_iff j id, int_beq_iff id j), later), (new, distinct))

  take_visible-eq :
      (now timeout : ℤ) (room : ℕ) (messages : List Fields) (s : State)
      → IsSound env s
      → Listing env.platform s.messages.items messages
      → map (id_of env.platform) (take_visible env now timeout room messages s).0
        ≡ map (id_of env.platform) (take room (filter (visible_at env now) messages))
  unfolding take_visible filter
  take_visible-eq now timeout zero [] s v h = refl
  take_visible-eq now timeout (suc room) [] s v h = refl
  take_visible-eq now timeout zero (message ∷ rest) s v h = refl
  take_visible-eq now timeout (suc room) (message ∷ rest) s v ((here, there), (new, distinct)) =
      let reserved = reserve_visible_message env message now timeout s in
      let valid = reserve-IsSound env message now timeout s v in
      elim (Bool-cases (int_less now (int64_field env.platform message "visible_after"))) [
        | inl hidden ↦
            rw (hidden, take_visible, filter)
              (take_visible-eq now timeout (suc room) rest s v (there, distinct))
        | inr visible ↦ elim (reserve-cases env message now timeout s v.1) [
          | inl (nothing, same, hides) ↦ let no = hides message here in cc
          | inr (out, taken, r) ↦
              let later =
                take_visible-eq now timeout room rest reserved.1 valid
                  (Reserved-Listing now timeout _ s reserved.1 out rest r new (there, distinct)) in
              rw (visible, taken, take_visible, filter) (ap₂ (λ i l. i ∷ l) r.named later)
        ]
      ]

  -- `receiveMessage` answers with the messages of the queue that are visible, in the order of
  -- their ids and up to the clamped number of them, and with no others: a message that is visible
  -- is never passed over while there is room. The collections are valid, and the messages have
  -- their index by queue_name.
  pub receive-eq :
      (queue : Fields) (limit timeout : ℤ) (s : State)
      → IsSound env s
      → contains "queue_name" s.messages.index_fields ≡ true
      → map (id_of env.platform) (receive env queue limit timeout s).0
        ≡ map (id_of env.platform) (
            take
              (clamped limit)
              (filter (visible_at env (env.sources.now_millis s.tick)) (messages_of env queue s)))
  unfolding receive
  receive-eq queue limit timeout s v indexed =
      take_visible-eq (env.sources.now_millis s.tick) timeout (clamped limit)
        (messages_of env queue s) (record s { tick = suc s.tick }) v
        (messages_of-Listing env queue s v.1 indexed)
