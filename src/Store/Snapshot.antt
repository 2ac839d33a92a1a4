-- ===== src/Store/Snapshot.antt =====
-- `CollectionSnapshot` of internal/core/store/store.go, and the methods `Snapshot` and `Restore`
-- of a collection.
pub mod Loading
pub mod RoundTrip
use emulate.Prelude.{
  Option, none, some, Bool, List, [], ◌∷◌, String, string_eq, if◌then◌else◌, contains,
}
use emulate.Prelude.Int.{ℤ, pos, int_eq, int_less}
use emulate.Prelude.Result.{Result, ok, err, ◌>>=◌}
use emulate.Prelude.Assoc.{put}
use emulate.Store.Value.{Fields, Formats, int, get_or_nil, set_field, numeric_id, clone_record}
use emulate.Store.Index.{add_to_indexes}
use emulate.Store.Fields.{normalize_fields, same_strings}
use emulate.Store.Collection.{Collection, own_id, bump, empty_indexes, cleared_indexes, all_records}

pub record CollectionSnapshot : Type 0 where
  pub items : List Fields
  pub auto_id : ℤ
  pub index_fields : List String

-- `Snapshot`
unfoldable pub snapshot : Collection → CollectionSnapshot
snapshot c = record { items = all_records c; auto_id = c.auto_id; index_fields = c.index_fields }

pub data RestoreError : Type 0 where
  -- record is missing positive numeric id
  missing_id : RestoreError
  -- duplicate record id
  duplicate_id : ℤ → RestoreError

module _ (go : Formats) where
  -- The first loop of `Restore`: the records to store, each with its id as a number, or the error
  -- at the first record that has no positive id or one that was seen before.
  unfoldable pub checked_items : List ℤ → List Fields → Result RestoreError (List Fields)
  checked_items seen [] = ok []
  checked_items seen (item ∷ items) = elim (own_id go item) [
    | none ↦ err missing_id
    | some id ↦ if contains id seen then err (duplicate_id id) else do
      records ← checked_items (id ∷ seen) items
      ok (set_field "id" (int id) (clone_record item) ∷ records)
  ]

  -- The id of a record in the second loop of `Restore`, where a missing one reads as 0.
  unfoldable pub loaded_id : Fields → ℤ
  loaded_id item = elim (numeric_id go (get_or_nil "id" item)) [ none ↦ pos 0 | some id ↦ id ]

  -- A round of the second loop of `Restore`.
  unfoldable pub load : Collection → Fields → Collection
  unfolding loaded_id
  load c item = record c {
    items = put (loaded_id item) item c.items;
    indexes = add_to_indexes go item c.indexes;
    auto_id = bump (loaded_id item) c.auto_id;
  }

  unfoldable pub load_all : Collection → List Fields → Collection
  load_all c [] = c
  load_all c (item ∷ items) = load_all (load c item) items

-- The collection that `Restore` loads the records into: no records, the snapshot's index fields
-- with empty indexes, and the snapshot's automatic id, which is 1 at least.
unfoldable pub emptied : Collection → List String → ℤ → Collection
emptied c names auto = record {
  items = [];
  indexes =
      if same_strings c.index_fields names
      then cleared_indexes c.indexes
      else cleared_indexes (empty_indexes names);
  index_fields = if same_strings c.index_fields names then c.index_fields else names;
  auto_id = if int_less auto (pos 1) then pos 1 else auto;
}

-- `Restore`
unfoldable pub restore : Formats → Collection → CollectionSnapshot → Result RestoreError Collection
restore go c s = do
  records ← checked_items go [] s.items
  ok (load_all go (emptied c (normalize_fields s.index_fields) s.auto_id) records)
