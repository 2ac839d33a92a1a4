-- ===== src/Store/Index.antt =====
-- The field indexes of a collection in internal/core/store/store.go: `addToIndexes`,
-- `removeFromIndexes` and `sortedIDs`. An index has, for each key, the set of ids filed under it.
pub mod Laws
use emulate.Prelude.{
  Option, none, some, Bool, true, false, List, [], ◌∷◌, String, string_eq, ◌==◌, if◌then◌else◌,
  contains,
}
use emulate.Prelude.Int.{ℤ, int_eq, int_order}
use emulate.Prelude.Assoc.{Assoc, lookup, put, erase, map_values}
use emulate.Prelude.Sort.{sort}
use emulate.Store.Value.{Formats, Fields, get_or_nil, numeric_id, filed_key}

abbrev pub Index : Type 0
Index = Assoc String (List ℤ)

abbrev pub Indexes : Type 0
Indexes = Assoc String Index

-- index[key], where a missing key reads as the empty set
unfoldable pub bucket : String → Index → List ℤ
bucket key index = elim (lookup key index) [ none ↦ [] | some ids ↦ ids ]

-- index[key][id] = struct{}{}
unfoldable pub add_id : ℤ → List ℤ → List ℤ
add_id id ids = if contains id ids then ids else id ∷ ids

-- delete(index[key], id)
unfoldable pub remove_id : ℤ → List ℤ → List ℤ
remove_id id [] = []
remove_id id (j ∷ ids) = let rest = remove_id id ids in if id == j then rest else j ∷ rest

-- The body of the loop of `addToIndexes`.
unfoldable pub file : ℤ → Option String → Index → Index
unfolding add_id bucket
file id none index = index
file id (some key) index = put key (add_id id (bucket key index)) index

-- if len(index[key]) == 0 { delete(index, key) }
unfoldable pub put_bucket : String → List ℤ → Index → Index
put_bucket key [] index = erase key index
put_bucket key (id ∷ ids) index = put key (id ∷ ids) index

-- The body of the loop of `removeFromIndexes`.
unfoldable pub unfile : ℤ → Option String → Index → Index
unfolding remove_id bucket put_bucket
unfile id none index = index
unfile id (some key) index = put_bucket key (remove_id id (bucket key index)) index

-- `addToIndexes`
unfoldable pub add_to_indexes : Formats → Fields → Indexes → Indexes
unfolding file
add_to_indexes go item indexes = elim (numeric_id go (get_or_nil "id" item)) [
  | none ↦ indexes
  | some id ↦ map_values (λ name index. file id (filed_key go name item) index) indexes
]

-- `removeFromIndexes`
unfoldable pub remove_from_indexes : Formats → Fields → Indexes → Indexes
unfolding unfile
remove_from_indexes go item indexes = elim (numeric_id go (get_or_nil "id" item)) [
  | none ↦ indexes
  | some id ↦ map_values (λ name index. unfile id (filed_key go name item) index) indexes
]

-- `sortedIDs`
unfoldable pub sorted_ids : List ℤ → List ℤ
unfolding sort
sorted_ids ids = sort ids
