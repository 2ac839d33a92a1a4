-- ===== src/Sns/Fields.antt =====
-- Reading of records and lists in internal/services/aws/sns/handler.go.
use emulate.Prelude.{
  none, some, List, [], ◌∷◌, not, filter, contains, map, length, nat_eq, String, string_eq, ◌==◌,
  if◌then◌else◌,
}
use emulate.Prelude.Text.{text_less, text_order}
use emulate.Prelude.Sort.{sort}
use emulate.Prelude.Assoc.{lookup, put, keys}
use emulate.Store.Value.{
  Value, Fields, Items, Rows, str, rows, array, texts, end, field, no_items, item, no_rows,
  next_row, get_or_nil,
}
use emulate.Sqs.Fields.{Platform, record_value, scalar_string}
use emulate.Sqs.Params.{Params}
use emulate.Sqs.Attributes.{entries, put_scalars}

-- `firstNonEmpty`
unfoldable pub first_non_empty : List String → String
first_non_empty [] = ""
first_non_empty (value ∷ values) =
    let rest = first_non_empty values in if value == "" then rest else value

-- []Record of a list
unfoldable pub rows_of : List Fields → Rows
rows_of [] = no_rows
rows_of (fs ∷ rest) = next_row fs (rows_of rest)

unfoldable pub list_of_rows : Rows → List Fields
list_of_rows no_rows = []
list_of_rows (next_row fs rest) = fs ∷ list_of_rows rest

-- The records of a list that are not empty.
unfoldable pub list_of_items : Items → List Fields
list_of_items no_items = []
list_of_items (item value rest) =
    let fs = record_value value in
    let later = list_of_items rest in if length (entries fs) == 0 then later else fs ∷ later

-- `recordList`
unfoldable pub record_list : Value → List Fields
record_list (rows rs) = list_of_rows rs
record_list (array items) = list_of_items items
record_list v = []

-- The value of a tag.
unfoldable pub value_of : Params → String → String
value_of values key = elim (lookup key values) [ none ↦ "" | some value ↦ value ]

-- A tag.
unfoldable pub tag_of : String → String → Fields
tag_of key value = field "Key" (str key) (field "Value" (str value) end)

module _ (go : Platform) where
  -- `stringField`
  unfoldable pub string_field : Fields → String → String
  string_field record_ name = scalar_string go (get_or_nil name record_)

  unfoldable pub scalar_strings : Items → List String
  scalar_strings no_items = []
  scalar_strings (item value rest) = scalar_string go value ∷ scalar_strings rest

  -- `stringSlice`
  unfoldable pub string_slice : Value → List String
  string_slice (texts ss) = ss
  string_slice (array items) = scalar_strings items
  string_slice v = []

  -- `stringMapField`, where a map[string]string is the object of its texts
  unfoldable pub string_map_field : Fields → String → Params
  string_map_field record_ name = put_scalars go (record_value (get_or_nil name record_)) []

  -- The first loop of `mergeTags`.
  unfoldable pub tag_values : List Fields → Params → Params
  tag_values [] values = values
  tag_values (tag ∷ tags) values =
      tag_values tags (put (string_field tag "Key") (string_field tag "Value") values)

  -- The second loop of `mergeTags`, which leaves out an empty key.
  unfoldable pub incoming_values : List Fields → Params → Params
  incoming_values [] values = values
  incoming_values (tag ∷ tags) values =
      let key = string_field tag "Key" in
      incoming_values tags (if key == "" then values else put key (string_field tag "Value") values)

  -- `mergeTags`
  unfoldable pub merge_tags : List Fields → List Fields → List Fields
  merge_tags existing incoming =
      let values = incoming_values incoming (tag_values existing []) in
      map (λ key. tag_of key (value_of values key)) (sort ⦃o = text_order⦄ (keys values))

  -- `removeTags`
  unfoldable pub remove_tags : List Fields → List String → List Fields
  remove_tags existing names =
      filter (λ tag. not (contains (string_field tag "Key") names)) existing

  -- `removePermission`
  unfoldable pub remove_permission : List Fields → String → List Fields
  remove_permission existing label =
      filter (λ permission. not (string_field permission "Label" == label)) existing

  unfoldable pub insert_sorted : String → Fields → List Fields → List Fields
  insert_sorted name record_ [] = record_ ∷ []
  insert_sorted name record_ (other ∷ rest) =
      let later = insert_sorted name record_ rest in
      if text_less (string_field other name) (string_field record_ name)
      then other ∷ later
      else record_ ∷ other ∷ rest

  -- sort.Slice by a field
  unfoldable pub sort_by : String → List Fields → List Fields
  sort_by name [] = []
  sort_by name (record_ ∷ rest) = insert_sorted name record_ (sort_by name rest)
