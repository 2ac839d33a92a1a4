-- ===== src/Store/Collection.antt =====
-- `Collection` of internal/core/store/store.go: records by id, the indexes over some of their
-- fields, and the next automatic id. A method that locks for writing returns the new collection;
-- `now` is what `timestamp` reads from the clock.
pub mod Mirror
pub mod Invariant
pub mod Find
pub mod Fresh
pub mod Access
pub mod History
use emulate.Prelude.{
  ℕ, Option, none, some, Bool, true, false, List, [], ◌∷◌, map, String, string_eq, ◌==◌,
  if◌then◌else◌, length, filter,
}
use emulate.Prelude.Int.{ℤ, pos, succ, int_eq, int_less, int_order}
use emulate.Prelude.Assoc.{Assoc, keys, lookup, put, erase, map_values, is_some}
use emulate.Prelude.Sort.{sort}
use emulate.Store.Value.{
  Value, Fields, Formats, str, int, end, get_field, get_or_nil, set_field, numeric_id, index_key,
  clone_record, patch_record,
}
use emulate.Store.Index.{Indexes, bucket, add_to_indexes, remove_from_indexes, sorted_ids}

pub record Collection : Type 0 where
  pub items : Assoc ℤ Fields
  pub indexes : Indexes
  pub index_fields : List String
  pub auto_id : ℤ

-- indexes[field] = map[string]map[int]struct{}{} for each field
unfoldable pub empty_indexes : List String → Indexes
empty_indexes [] = []
empty_indexes (name ∷ names) = put name [] (empty_indexes names)

unfoldable pub new_collection : List String → Collection
unfolding empty_indexes
new_collection names = record {
  items = [];
  indexes = empty_indexes names;
  index_fields = names;
  auto_id = pos 1;
}

-- id > 0
abbrev pub is_positive : ℤ → Bool
is_positive id = int_less (pos 0) id

-- The id that a record brings itself, if it is usable: `numericID` and `id > 0`.
unfoldable pub own_id : Formats → Fields → Option ℤ
own_id go item = elim (numeric_id go (get_or_nil "id" item)) [
  | none ↦ none
  | some id ↦ if is_positive id then some id else none
]

-- if id >= c.autoID { c.autoID = id + 1 }
unfoldable pub bump : ℤ → ℤ → ℤ
bump id auto_id = if int_less id auto_id then auto_id else succ id

-- if _, ok := item["created_at"]; !ok { item["created_at"] = now }
unfoldable pub default_created : String → Fields → Fields
default_created now item =
    if is_some (get_field "created_at" item) then item else set_field "created_at" (str now) item

-- The indexes without what they file of the record, where there is one.
unfoldable pub without_existing : Formats → Option Fields → Indexes → Indexes
without_existing go none indexes = indexes
without_existing go (some existing) indexes = remove_from_indexes go existing indexes

-- The record that `Insert` stores.
unfoldable pub stamped : String → ℤ → Fields → Fields
stamped now id item =
    set_field "updated_at" (str now) (default_created now (set_field "id" (int id) item))

module _ (go : Formats) where
  -- The id that `Insert` uses: the record's own, or the next automatic one.
  unfoldable pub chosen_id : Collection → Fields → ℤ
  chosen_id c item = elim (own_id go item) [ none ↦ c.auto_id | some id ↦ id ]

  -- The end of `Insert`: the record is stored under the id, in place of one that is there.
  unfoldable pub insert_at : String → Collection → ℤ → Fields → Collection × Fields
  insert_at now c id item =
      let stored = stamped now id item in
      (
        record c {
          items = put id stored c.items;
          indexes = add_to_indexes go stored (without_existing go (lookup id c.items) c.indexes);
          auto_id = bump id c.auto_id;
        },
        clone_record stored,
      )

  -- `Insert`
  unfoldable pub insert : String → Collection → Fields → Collection × Fields
  unfolding insert_at
  insert now c rec = let item = clone_record rec in insert_at now c (chosen_id c item) item

  -- `Get`
  unfoldable pub get : Collection → ℤ → Option Fields
  get c id = elim (lookup id c.items) [ none ↦ none | some item ↦ some (clone_record item) ]

  -- The end of `Update` and `UpdateFunc`, which is the same text in both.
  unfoldable pub apply_patch : String → Collection → ℤ → Fields → Fields → Collection × Fields
  apply_patch now c id existing patch =
      let updated = set_field "updated_at" (str now) (patch_record (clone_record existing) patch) in
      (
        record c {
          items = put id updated c.items;
          indexes = add_to_indexes go updated (remove_from_indexes go existing c.indexes);
        },
        clone_record updated,
      )

  -- `Update`
  unfoldable pub update : String → Collection → ℤ → Fields → Option (Collection × Fields)
  unfolding apply_patch
  update now c id patch = elim (lookup id c.items) [
    | none ↦ none
    | some existing ↦ some (apply_patch now c id existing patch)
  ]

  -- What `UpdateFunc` does with the patch that the function gives.
  unfoldable pub apply_result :
      String → Collection → ℤ → Fields → Option Fields → Option (Collection × Fields)
  unfolding apply_patch
  apply_result now c id existing none = none
  apply_result now c id existing (some patch) = some (apply_patch now c id existing patch)

  -- `UpdateFunc`, with none for a function that is nil
  unfoldable pub update_func :
      String → Collection → ℤ → Option (Fields → Option Fields) → Option (Collection × Fields)
  unfolding apply_result
  update_func now c id none = none
  update_func now c id (some fn) = elim (lookup id c.items) [
    | none ↦ none
    | some existing ↦ apply_result now c id existing (fn (clone_record existing))
  ]

  -- `Delete`
  unfoldable pub delete : Collection → ℤ → Collection × Bool
  delete c id = elim (lookup id c.items) [
    | none ↦ (c, false)
    | some existing ↦ (
      record c { items = erase id c.items; indexes = remove_from_indexes go existing c.indexes },
      true,
    )
  ]

-- cloneRecord(c.items[id]), where a missing record reads as nil
unfoldable pub copy_at : Assoc ℤ Fields → ℤ → Fields
copy_at items id = elim (lookup id items) [ none ↦ end | some item ↦ clone_record item ]

-- `allLocked`, and `All`
unfoldable pub all_records : Collection → List Fields
all_records c = map (copy_at c.items) (sort (keys c.items))

-- The loop of `FindBy` over the ids of an index.
unfoldable pub found_records : Assoc ℤ Fields → List ℤ → List Fields
found_records items [] = []
found_records items (id ∷ ids) =
    let rest = found_records items ids in
    elim (lookup id items) [ none ↦ rest | some item ↦ clone_record item ∷ rest ]

-- The loop of `FindBy` over all records, where the field has no index.
unfoldable pub scanned_records : Formats → String → String → List Fields → List Fields
scanned_records go name key = filter (λ item. index_key go (get_or_nil name item) == key)

-- `FindBy`
unfoldable pub find_by : Formats → Collection → String → Value → List Fields
unfolding scanned_records
find_by go c name value = elim (lookup name c.indexes) [
  | none ↦ scanned_records go name (index_key go value) (all_records c)
  | some index ↦ found_records c.items (sorted_ids (bucket (index_key go value) index))
]

-- `Count`
unfoldable pub count : Collection → ℕ
count c = length c.items

-- The indexes with no key left, under the same fields.
unfoldable pub cleared_indexes : Indexes → Indexes
cleared_indexes indexes = map_values (λ name index. []) indexes

-- `Clear`
unfoldable pub clear : Collection → Collection
unfolding cleared_indexes
clear c = record c { items = []; indexes = cleared_indexes c.indexes; auto_id = pos 1 }
