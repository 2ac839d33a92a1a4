-- ===== src/Sqs/Messages/Visibility/Traffic.antt =====
-- The visibility timeout of internal/services/aws/sqs/handler.go: how the messages that are taken
-- are hidden, and stay so while others are reserved.
use emulate.Prelude.{
  ◌≡◌, ◌≢◌, sym, ◌∙◌, inl, inr, true, some, List, [], ◌∷◌, All, ℕ, zero, suc, arith, Bool-cases,
  string_eq, ◌==◌,
}
use emulate.Prelude.Int.{ℤ, int_eq, int_less, int_beq_iff}
use emulate.Prelude.Int64.{after_seconds}
use emulate.Prelude.Assoc.{lookup}
use emulate.Store.Value.{Fields}
use emulate.Store.Collection.{Collection}
use emulate.Sqs.Fields.{int_field, int64_field}
use emulate.Sqs.State.{Env, State}
use emulate.Sqs.Messages.{reserve_visible_message, take_visible}
use emulate.Sqs.Messages.Records.{reserve-IsSound, IsSound}
use emulate.Sqs.Messages.Visibility.{Reserved, reserve-cases}

module _ (env : Env) where
  -- The id was given, and the message under it, if it is there still, is visible at `until`.
  abbrev pub Hidden : ℤ → ℤ → Collection → Type 0
  Hidden id until c =
      (int_less id c.auto_id ≡ true)
      × ((item : Fields)
          → lookup id c.items ≡ some item
          → int64_field env.platform item "visible_after" ≡ until)

  -- The ids are below the next one.
  abbrev pub Below : Collection → Type 0
  Below c = (id : ℤ) (item : Fields) → lookup id c.items ≡ some item → int_less id c.auto_id ≡ true

  Reserved-Hidden :
      (now timeout id j until : ℤ) (s t : State) (out : Fields)
      → Reserved env now timeout id s t out
      → int_less now until ≡ true
      → Hidden j until s.messages
      → (j ≢ id) × Hidden j until t.messages
  Reserved-Hidden now timeout id j until s t out r early (given, there) =
      let other : j ≢ id = λ same. cc (r.visible, early, there r.existing (rw (same) r.found)) in
      (
        other,
        (
          rw (r.auto_id) given,
          λ item stored. there item (ground (arith, r.items j, int_beq_iff j id)),
        ),
      )

  -- A reservation hides the message that it returns.
  new-Hidden :
      (now timeout id : ℤ) (s t : State) (out : Fields)
      → Reserved env now timeout id s t out
      → Below s.messages
      → Hidden (int_field env.platform out "id") (after_seconds now timeout) t.messages
  new-Hidden now timeout id s t out r below = rw (r.named) (
    rw (r.auto_id) (below id r.existing r.found),
    λ item stored. ground (arith, r.items id, r.until, int_beq_iff id id),
  )

  Reserved-Below :
      (now timeout id : ℤ) (s t : State) (out : Fields)
      → Reserved env now timeout id s t out
      → Below s.messages
      → Below t.messages
  Reserved-Below now timeout id s t out r below j item stored = elim (Bool-cases (j == id)) [
    | inl same ↦
        let eq : j ≡ id = (int_beq_iff j id).0 same in
        rw (r.auto_id, eq) (below id r.existing r.found)
    | inr other ↦ rw (r.auto_id) (below j item (ground (arith, r.items j)))
  ]

  pub take_visible-Hidden :
      (now timeout : ℤ) (room : ℕ) (messages : List Fields) (s : State) (id until : ℤ)
      → IsSound env s
      → int_less now until ≡ true
      → Hidden id until s.messages
      → Hidden id until (take_visible env now timeout room messages s).1.messages
        × All
            (λ out. int_field env.platform out "id" ≢ id)
            (take_visible env now timeout room messages s).0
  unfolding take_visible
  take_visible-Hidden now timeout zero [] s id until v early h = (h, tt)
  take_visible-Hidden now timeout (suc room) [] s id until v early h = (h, tt)
  take_visible-Hidden now timeout zero (message ∷ rest) s id until v early h = (h, tt)
  take_visible-Hidden now timeout (suc room) (message ∷ rest) s id until v early h =
      let reserved = reserve_visible_message env message now timeout s in
      let valid = reserve-IsSound env message now timeout s v in
      elim (Bool-cases (int_less now (int64_field env.platform message "visible_after"))) [
        | inl hidden ↦
            rw (hidden, take_visible)
              (take_visible-Hidden now timeout (suc room) rest s id until v early h)
        | inr visible ↦ elim (reserve-cases env message now timeout s v.1) [
          | inl (nothing, same, hides) ↦
              rw (visible, nothing, take_visible)
                (take_visible-Hidden now timeout (suc room) rest reserved.1 id until valid early
                  (rw (same) h))
          | inr (out, taken, r) ↦
              let (other, kept) =
                Reserved-Hidden now timeout _ id until s reserved.1 out r early h in
              let (later, others) =
                take_visible-Hidden now timeout room rest reserved.1 id until valid early kept in
              rw (visible, taken, take_visible)
                (later, (λ same. other (sym same ∙ r.named), others))
        ]
      ]

  pub take_visible-hides :
      (now timeout : ℤ) (room : ℕ) (messages : List Fields) (s : State)
      → IsSound env s
      → int_less now (after_seconds now timeout) ≡ true
      → Below s.messages
      → All
          (λ out.
            Hidden
              (int_field env.platform out "id")
              (after_seconds now timeout)
              (take_visible env now timeout room messages s).1.messages)
          (take_visible env now timeout room messages s).0
  unfolding take_visible
  take_visible-hides now timeout zero [] s v later below = tt
  take_visible-hides now timeout (suc room) [] s v later below = tt
  take_visible-hides now timeout zero (message ∷ rest) s v later below = tt
  take_visible-hides now timeout (suc room) (message ∷ rest) s v later below =
      let reserved = reserve_visible_message env message now timeout s in
      let valid = reserve-IsSound env message now timeout s v in
      elim (Bool-cases (int_less now (int64_field env.platform message "visible_after"))) [
        | inl hidden ↦
            rw (hidden, take_visible)
              (take_visible-hides now timeout (suc room) rest s v later below)
        | inr visible ↦ elim (reserve-cases env message now timeout s v.1) [
          | inl (nothing, same, hides) ↦
              rw (visible, nothing, take_visible)
                (take_visible-hides now timeout (suc room) rest reserved.1 valid later
                  (rw (same) below))
          | inr (out, taken, r) ↦
              let hid = new-Hidden now timeout _ s reserved.1 out r below in
              rw (visible, taken, take_visible)
                (
                  (take_visible-Hidden now timeout room rest reserved.1 _ _ valid later hid).0,
                  take_visible-hides now timeout room rest reserved.1 valid later
                      (Reserved-Below now timeout _ s reserved.1 out r below),
                )
        ]
      ]
