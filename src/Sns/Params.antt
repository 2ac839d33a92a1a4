-- ===== src/Sns/Params.antt =====
-- The parameters of a request in internal/services/aws/sns/handler.go.
use emulate.Prelude.{
  ℕ, Option, none, some, List, [], ◌∷◌, length, nat_eq, String, string_eq, ◌==◌, if◌then◌else◌,
}
use emulate.Store.Value.{Value, Fields, str, row, end, field}
use emulate.Sqs.Fields.{Platform, concat}
use emulate.Sqs.Params.{
  Params, param, run, rounds, all_of, set_each, put_each, set_text, numbered, indexed_attributes,
}
use emulate.Sqs.Params
use emulate.Sns.Fields.{first_non_empty, tag_of}

-- The first list that is not empty.
unfoldable pub first_filled {ℓ} : {A : Type ℓ} → List (List A) → List A
first_filled [] = []
first_filled (l ∷ ls) = let rest = first_filled ls in if length l == 0 then rest else l

module _ (go : Platform) where
  -- params[base + part]
  unfoldable pub part_param : Params → String → String → String
  part_param params base part = param params (concat (base ∷ part ∷ []))

  -- A round of `indexedTags`.
  unfoldable pub tag_step : Params → String → ℕ → Option Fields
  tag_step params prefix index =
      let base = numbered go prefix index in
      let key = part_param params base ".Key" in
      if key == "" then none else some (tag_of key (part_param params base ".Value"))

  unfoldable pub tags_at : Params → String → List Fields
  tags_at params prefix = all_of (run (tag_step params prefix) (rounds params) 1)

  -- `indexedTags`
  unfoldable pub indexed_tags : Params → List Fields
  indexed_tags params =
      first_filled
        (tags_at params "Tag" ∷ tags_at params "Tags.member" ∷ tags_at params "Tag.member" ∷ [])

  -- `indexedNames`
  unfoldable pub indexed_names : Params → String → List String
  indexed_names params prefix = first_filled (
      Params.indexed_names go params (concat (prefix ∷ ".member" ∷ []))
      ∷ Params.indexed_names go params prefix
      ∷ [])

  -- A round of `entryMap`.
  unfoldable pub entry_step : Params → String → ℕ → Option (String × String)
  entry_step params prefix index =
      let base = numbered go prefix index in
      let key = first_non_empty (
        part_param params base ".key"
        ∷ part_param params base ".Key"
        ∷ part_param params base ".Name"
        ∷ []) in
      if key == ""
      then none
      else some (
        key,
        first_non_empty (part_param params base ".value" ∷ part_param params base ".Value" ∷ []),
      )

  unfoldable pub entries_at : Params → String → List (String × String)
  entries_at params prefix = all_of (run (entry_step params prefix) (rounds params) 1)

  -- `entryMap`
  unfoldable pub entry_map : Params → String → Params
  entry_map params prefix =
      put_each (entries_at params (concat (prefix ∷ ".Entry" ∷ [])))
        (put_each (entries_at params (concat (prefix ∷ ".entry" ∷ []))) [])

  -- `subscriptionAttributes`
  unfoldable pub subscription_attributes : Params → Params
  subscription_attributes params =
      put_each (indexed_attributes go params "Attribute")
        (put_each (entry_map params "Attributes") [])

  -- A round of `parseMessageAttributes`.
  unfoldable pub message_attribute_step : Params → String → ℕ → Option (String × Value)
  message_attribute_step params prefix index =
      let base = numbered go prefix index in
      let name =
        first_non_empty (part_param params base ".Name" ∷ part_param params base ".key" ∷ []) in
      let kind = first_non_empty (
        part_param params base ".Value.DataType" ∷ part_param params base ".value.DataType" ∷ []) in
      let text = first_non_empty (
        part_param params base ".Value.StringValue"
        ∷ part_param params base ".value.StringValue"
        ∷ []) in
      let binary = first_non_empty (
        part_param params base ".Value.BinaryValue"
        ∷ part_param params base ".value.BinaryValue"
        ∷ []) in
      if name == ""
      then none
      else some (
        name,
        row (
            set_text "BinaryValue" binary
              (set_text "StringValue" text (field "DataType" (str kind) end))),
      )

  unfoldable pub message_attributes_at : Params → String → List (String × Value)
  message_attributes_at params prefix =
      all_of (run (message_attribute_step params prefix) (rounds params) 1)

  -- `parseMessageAttributes`
  unfoldable pub parse_message_attributes : Params → Fields
  parse_message_attributes params =
      set_each (message_attributes_at params "MessageAttribute")
        (set_each (message_attributes_at params "MessageAttributes.entry") end)
