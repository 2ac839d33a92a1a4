-- ===== src/Sqs/Params.antt =====
-- The parameters of a request in internal/services/aws/sqs/handler.go, and the loops
-- `for index := 1; ; index++` that read numbered ones until one is missing.
pub mod Termination
use emulate.Prelude.{
  ℕ, zero, suc, ◌+◌, Bool, true, false, Option, none, some, List, [], ◌∷◌, ◌&&◌, length, String,
  string_eq, ◌==◌, if◌then◌else◌,
}
use mathlib.Core.Option
use emulate.Prelude.Int.{ℤ, pos}
use emulate.Prelude.Assoc.{Assoc, lookup, put}
use emulate.Store.Value.{Value, Fields, str, row, end, field, set_field}
use emulate.Sqs.Fields.{Platform, concat}

abbrev pub Params : Type 0
Params = Assoc String String

-- params[key]
unfoldable pub param : Params → String → String
param params key = elim (lookup key params) [ none ↦ "" | some value ↦ value ]

-- The loop: `step` gives what a round appends, or none where it breaks. None is given where the
-- fuel runs out first.
unfoldable pub run {ℓ} : {A : Type ℓ} → (ℕ → Option A) → ℕ → ℕ → Option (List A)
run step zero index = none
run step (suc fuel) index = elim (step index) [
  | none ↦ some []
  | some a ↦ Option.map (λ rest. a ∷ rest) (run step fuel (suc index))
]

-- One round more than there are parameters.
unfoldable pub rounds : Params → ℕ
rounds params = suc (length params)

abbrev pub all_of {ℓ} : {A : Type ℓ} → Option (List A) → List A
all_of none = []
all_of (some l) = l

-- tags[key] = value, for each
unfoldable pub set_each : List (String × Value) → Fields → Fields
set_each [] fs = fs
set_each ((k, v) ∷ rest) fs = set_each rest (set_field k v fs)

-- attrs[name] = value, for each
unfoldable pub put_each {ℓ} : {V : Type ℓ} → Assoc String V → Assoc String V → Assoc String V
put_each [] m = m
put_each ((k, v) ∷ rest) m = put_each rest (put k v m)

-- A field that is set where the text is not empty.
unfoldable pub set_text : String → String → Fields → Fields
set_text name value fs = if value == "" then fs else set_field name (str value) fs

module _ (go : Platform) where
  -- prefix + "." + strconv.Itoa(index)
  unfoldable pub numbered : String → ℕ → String
  numbered prefix index = concat (prefix ∷ "." ∷ go.itoa (pos index) ∷ [])

  -- A round of `indexedNames`.
  unfoldable pub name_step : Params → String → ℕ → Option String
  name_step params prefix index =
      let name = param params (numbered prefix index) in if name == "" then none else some name

  -- `indexedNames`
  unfoldable pub indexed_names : Params → String → List String
  indexed_names params prefix = all_of (run (name_step params prefix) (rounds params) 1)

  -- A round of `indexedTags`.
  unfoldable pub tag_step : Params → String → ℕ → Option (String × Value)
  tag_step params prefix index =
      let base = numbered prefix index in
      let key = param params (concat (base ∷ ".Key" ∷ [])) in
      if key == "" then none else some (key, str (param params (concat (base ∷ ".Value" ∷ []))))

  -- `indexedTags`
  unfoldable pub indexed_tags : Params → String → Fields
  indexed_tags params prefix =
      set_each (all_of (run (tag_step params prefix) (rounds params) 1)) end

  -- A round of `indexedAttributes`.
  unfoldable pub attribute_step : Params → String → ℕ → Option (String × String)
  attribute_step params prefix index =
      let base = numbered prefix index in
      let name = param params (concat (base ∷ ".Name" ∷ [])) in
      if name == "" then none else some (name, param params (concat (base ∷ ".Value" ∷ [])))

  -- `indexedAttributes`
  unfoldable pub indexed_attributes : Params → String → Params
  indexed_attributes params prefix =
      put_each (all_of (run (attribute_step params prefix) (rounds params) 1)) []

  -- A round of `parseMessageAttributesAt`.
  unfoldable pub message_attribute_step : Params → String → ℕ → Option (String × Value)
  message_attribute_step params prefix index =
      let base = numbered prefix index in
      let name = param params (concat (base ∷ ".Name" ∷ [])) in
      let kind =
        field "DataType" (str (param params (concat (base ∷ ".Value.DataType" ∷ [])))) end in
      let text = param params (concat (base ∷ ".Value.StringValue" ∷ [])) in
      let binary = param params (concat (base ∷ ".Value.BinaryValue" ∷ [])) in
      if name == ""
      then none
      else some (name, row (set_text "BinaryValue" binary (set_text "StringValue" text kind)))

  -- `parseMessageAttributesAt`
  unfoldable pub parse_message_attributes_at : Params → String → Fields
  parse_message_attributes_at params prefix =
      set_each (all_of (run (message_attribute_step params prefix) (rounds params) 1)) end

  -- A round of `indexedBatchEntryPrefixes`.
  unfoldable pub prefix_step : Params → String → ℕ → Option String
  prefix_step params prefix index =
      let base = numbered prefix index in
      if param params (concat (base ∷ ".Id" ∷ [])) == ""
        && param params (concat (base ∷ ".MessageBody" ∷ [])) == ""
        && param params (concat (base ∷ ".ReceiptHandle" ∷ [])) == ""
      then none
      else some base

  -- `indexedBatchEntryPrefixes`
  unfoldable pub indexed_batch_entry_prefixes : Params → String → List String
  indexed_batch_entry_prefixes params prefix =
      all_of (run (prefix_step params prefix) (rounds params) 1)
