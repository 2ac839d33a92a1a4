-- ===== src/Store/Database.antt =====
-- `Store` of internal/core/store/store.go: named collections and data. A collection is shared by
-- everyone who was given it, so it stands at an address: `heap` has every collection that was ever
-- made, and a handle is its address.
pub mod Laws
use emulate.Prelude.{
  ℕ, ◌+◌, Bool, true, false, Option, none, some, List, [], ◌∷◌, ◌&&◌, not, String, string_eq,
  nat_eq, ◌==◌, if◌then◌else◌,
}
use emulate.Prelude.Text.{text_order}
use emulate.Prelude.Result.{Result, ok, err}
use emulate.Prelude.Sort.{sort}
use emulate.Prelude.Assoc.{Assoc, keys, lookup, put, is_some}
use emulate.Store.Value.{Value, Formats, clone_value}
use emulate.Store.Fields.{normalize_fields, same_strings}
use emulate.Store.Collection.{Collection, new_collection, clear}
use emulate.Store.Snapshot
use emulate.Store.Snapshot.{CollectionSnapshot, RestoreError}

-- `Store`
pub record Database : Type 0 where
  pub heap : Assoc ℕ Collection
  pub next : ℕ
  pub collections : Assoc String ℕ
  pub values : Assoc String Value

-- `StoreSnapshot`
pub record StoreSnapshot : Type 0 where
  pub collections : Assoc String CollectionSnapshot
  pub values : Assoc String Value

-- `New`
unfoldable pub new_database : Database
new_database = record { heap = []; next = 0; collections = []; values = [] }

-- The collection at an address; the addresses of a store are never dangling.
unfoldable pub at : ℕ → Assoc ℕ Collection → Collection
at address heap = elim (lookup address heap) [ none ↦ new_collection [] | some c ↦ c ]

-- A new collection under a name.
unfoldable pub placed : String → List String → Database → Database
placed name fields s = record s {
  heap = put s.next (new_collection fields) s.heap;
  next = s.next + 1;
  collections = put name s.next s.collections;
}

-- len(requested) == 0
unfoldable pub is_nil : List String → Bool
is_nil [] = true
is_nil (field ∷ fields) = false

-- `Collection`: the handle and the store afterwards; the error names the fields that the
-- collection has and those that were asked for.
unfoldable pub collection :
    String → List String → Database → Result (List String × List String) (ℕ × Database)
collection name fields s =
    let requested = normalize_fields fields in
    elim (lookup name s.collections) [
      | none ↦ ok (s.next, placed name requested s)
      | some address ↦
          let existing = (at address s.heap).index_fields in
          if not (is_nil requested) && not (same_strings existing requested)
          then err (existing, requested)
          else ok (address, s)
    ]

-- `SetData`
unfoldable pub set_data : String → Value → Database → Database
set_data key value s = record s { values = put key (clone_value value) s.values }

-- `GetData`
unfoldable pub get_data : String → Database → Option Value
get_data key s = elim (lookup key s.values) [ none ↦ none | some value ↦ some (clone_value value) ]

-- The last loop of `Reset`.
unfoldable pub clear_each : Assoc String ℕ → Assoc ℕ Collection → Assoc ℕ Collection
clear_each [] heap = heap
clear_each ((name, address) ∷ rest) heap =
    clear_each rest (put address (clear (at address heap)) heap)

-- `Reset`
unfoldable pub reset : Database → Database
reset s = record s { heap = clear_each s.collections s.heap; values = [] }

-- The copies of data in `Snapshot` and `Restore`.
unfoldable pub clone_values : Assoc String Value → Assoc String Value
clone_values [] = []
clone_values ((key, value) ∷ rest) = (key, clone_value value) ∷ clone_values rest

-- The last loop of `Snapshot`; every name that it is run on has a collection.
unfoldable pub snapshot_each : Database → List String → Assoc String CollectionSnapshot
snapshot_each s [] = []
snapshot_each s (name ∷ names) =
    let rest = snapshot_each s names in
    elim (lookup name s.collections) [
      | none ↦ rest
      | some address ↦ (name, Snapshot.snapshot (at address s.heap)) ∷ rest
    ]

-- `Snapshot`
unfoldable pub snapshot_database : Database → StoreSnapshot
snapshot_database s = record {
  collections = snapshot_each s (sort ⦃o = text_order⦄ (keys s.collections));
  values = clone_values s.values;
}

-- The first loop of `Restore`: the names that the snapshot has.
unfoldable pub kept_names : Assoc String CollectionSnapshot → Assoc String ℕ → Assoc String ℕ
kept_names snapshots [] = []
kept_names snapshots ((name, address) ∷ rest) =
    let more = kept_names snapshots rest in
    if is_some (lookup name snapshots) then (name, address) ∷ more else more

-- The collection of a name in the second loop of `Restore`: the one that is there if it has the
-- snapshot's fields, otherwise a new one, which leaves earlier handles with the old one.
unfoldable pub prepared : String → List String → Database → Database
prepared name fields s = elim (lookup name s.collections) [
  | none ↦ placed name fields s
  | some address ↦
      if same_strings (at address s.heap).index_fields fields then s else placed name fields s
]

-- The address of a name that was prepared.
unfoldable pub address_of : String → Database → ℕ
address_of name s = elim (lookup name s.collections) [ none ↦ s.next | some address ↦ address ]

-- The second loop of `Restore`, which stops at an error.
unfoldable pub restore_collections :
    Formats → Assoc String CollectionSnapshot → Database → Option (String × RestoreError) × Database
restore_collections go [] s = (none, s)
restore_collections go ((name, saved) ∷ rest) s =
    let ready = prepared name (normalize_fields saved.index_fields) s in
    let address = address_of name ready in
    elim (Snapshot.restore go (at address ready.heap) saved) [
      | err problem ↦ (some (name, problem), ready)
      | ok restored ↦
          restore_collections go rest (record ready { heap = put address restored ready.heap })
    ]

-- `Restore`: the error, if any, and the store afterwards, which an error leaves half restored.
unfoldable pub restore_database :
    Formats → StoreSnapshot → Database → Option (String × RestoreError) × Database
restore_database go snapshot s =
    let start = record s { collections = kept_names snapshot.collections s.collections } in
    let (problem, loaded) = restore_collections go snapshot.collections start in
    if is_some problem
    then (problem, loaded)
    else (none, record loaded { values = clone_values snapshot.values })
