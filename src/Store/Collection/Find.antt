-- ===== src/Store/Collection/Find.antt =====
-- `FindBy` by an index gives what a scan of all records would.
use emulate.Prelude.{
  ◌≡◌, ◌≢◌, refl, sym, ◌∙◌, ap, inl, inr, none, some, Bool, ◌&&◌, List, [], ◌∷◌, map, String,
  string_eq, arith, Option-cases, contains, filter, All,
}
use text.Mathlib.TextEquality.{eq_iff}
use emulate.Prelude.Int.{ℤ, int_eq, int_order}
use emulate.Prelude.Sort.{
  sort, contains-sort, sort-IsSorted, eq_of_IsSorted, filter-IsSorted, contains-filter,
}
use emulate.Prelude.Assoc.{keys, lookup, is_some, contains-keys}
use emulate.Store.Value.{Value, Fields, Formats, nil, end, filed_key, index_key, get_field}
use emulate.Store.Value.Laws.{clone_record-eq}
use emulate.Store.Index.{Index, bucket, sorted_ids}
use emulate.Store.Index.Laws.{matches_key, Represents}
use emulate.Store.Collection.{
  Collection, copy_at, all_records, found_records, scanned_records, find_by,
}
use emulate.Store.Collection.Mirror.{Records, is_filed}
use emulate.Store.Collection.Invariant.{IsValid}

module _ (go : Formats) where
  -- The record is filed under the key in an index on the field.
  abbrev pub has_key : String → String → Fields → Bool
  has_key name key item = matches_key (filed_key go name item) key

  is_some_of_is_filed :
      (name : String) (items : Records) (key : String) (id : ℤ)
      → (is_some (lookup id items) && is_filed go name items key id) ≡ is_filed go name items key id
  is_some_of_is_filed name items key id = ground arith

  sorted_ids-bucket :
      (c : Collection) (name key : String) (index : Index)
      → IsValid go c
      → Represents index (is_filed go name c.items)
      → sorted_ids (bucket key index) ≡ filter (is_filed go name c.items key) (sort (keys c.items))
  unfolding sorted_ids
  sorted_ids-bucket c name key index v r =
      let p = is_filed go name c.items key in
      let ids = sort (keys c.items) in
      eq_of_IsSorted (sort (bucket key index)) (filter p ids)
        (sort-IsSorted (bucket key index) (r.distinct key))
        (filter-IsSorted p ids (sort-IsSorted (keys c.items) v.distinct))
        (λ id. cc (
          contains-sort id (bucket key index),
          r.agrees key id,
          contains-filter p id ids,
          contains-sort id (keys c.items),
          contains-keys id c.items,
          is_some_of_is_filed name c.items key id,
        ))

  filed_key-end : (name : String) → filed_key go name end ≡ none
  unfolding filed_key get_field
  filed_key-end name = refl

  found_records-filter :
      (name key : String) (items : Records) (ids : List ℤ)
      → found_records items (filter (is_filed go name items key) ids)
        ≡ filter (has_key name key) (map (copy_at items) ids)
  unfolding found_records filter copy_at
  found_records-filter name key items [] = refl
  found_records-filter name key items (id ∷ ids) = elim (Option-cases (lookup id items)) [
    | inl absent ↦ ground (arith, found_records-filter name key items ids, filed_key-end name)
    | inr (item, stored) ↦
        ground (arith, found_records-filter name key items ids, clone_record-eq item)
  ]

  -- On an indexed field of a valid collection `FindBy` gives, in order of their ids, exactly the
  -- records whose field is there, is not nil, and prints as the value does.
  pub find_by_indexed :
      (c : Collection) (name : String) (value : Value) {index : Index}
      → IsValid go c
      → lookup name c.indexes ≡ some index
      → find_by go c name value ≡ filter (has_key name (index_key go value)) (all_records c)
  unfolding find_by all_records
  find_by_indexed c name value {index} v found =
      rw (found, find_by)
        (ap (found_records c.items)
            (sorted_ids-bucket c name (index_key go value) index v (v.mirrored name index found))
          ∙ found_records-filter name (index_key go value) c.items (sort (keys c.items)))

  find_by_scanned :
      (c : Collection) (name : String) (value : Value)
      → lookup name c.indexes ≡ none
      → find_by go c name value ≡ scanned_records go name (index_key go value) (all_records c)
  unfolding find_by
  find_by_scanned c name value unindexed = rw (unindexed, find_by) refl

  -- The record has the field, and not nil.
  abbrev pub HasField : String → Fields → Type 0
  HasField name item = (value : Value) × (get_field name item ≡ some value) × (value ≢ nil)

  filed_key-some :
      (name : String) (item : Fields) (v : Value)
      → get_field name item ≡ some v
      → v ≢ nil
      → filed_key go name item ≡ some (index_key go v)
  unfolding filed_key
  filed_key-some name item nil there h = absurd (h refl)
  filed_key-some name item _ there h = rw (there, filed_key)

  filter-has_key :
      (name key : String) (items : List Fields)
      → All (HasField name) items
      → filter (has_key name key) items ≡ scanned_records go name key items
  unfolding filter scanned_records
  filter-has_key name key [] h = refl
  filter-has_key name key (item ∷ items) ((v, there, there_is), h) = ground (
    arith,
    filter-has_key name key items h,
    filed_key-some name item v there there_is,
    eq_iff key (index_key go v),
    eq_iff (index_key go v) key,
  )

  -- In a valid collection where every record has the field, with a value that is not nil, `FindBy`
  -- gives the records of the scan without an index, whether the field is indexed or not.
  pub find_by-eq-scanned_records :
      (c : Collection) (name : String) (value : Value)
      → IsValid go c
      → All (HasField name) (all_records c)
      → find_by go c name value ≡ scanned_records go name (index_key go value) (all_records c)
  unfolding find_by
  find_by-eq-scanned_records c name value v h = elim (Option-cases (lookup name c.indexes)) [
    | inl unindexed ↦ find_by_scanned c name value unindexed
    | inr (index, found) ↦
        find_by_indexed c name value v found
        ∙ filter-has_key name (index_key go value) (all_records c) h
  ]

  -- What `FindBy` gives depends on the records and the index fields alone.
  pub find_by-ext :
      (c d : Collection) (name : String) (value : Value)
      → IsValid go c
      → IsValid go d
      → c.index_fields ≡ d.index_fields
      → all_records c ≡ all_records d
      → find_by go c name value ≡ find_by go d name value
  find_by-ext c d name value v w fields records =
      let same : is_some (lookup name c.indexes) ≡ is_some (lookup name d.indexes) =
        v.covered name ∙ ap (contains name) fields ∙ sym (w.covered name) in
      let key = index_key go value in
      elim (Option-cases (lookup name c.indexes)) [
        | inl none_c ↦ elim (Option-cases (lookup name d.indexes)) [
          | inl none_d ↦
              find_by_scanned c name value none_c
              ∙ ap (scanned_records go name key) records
              ∙ sym (find_by_scanned d name value none_d)
          | inr (j, found_d) ↦ cc
        ]
        | inr (i, found_c) ↦ elim (Option-cases (lookup name d.indexes)) [
          | inl none_d ↦ cc
          | inr (j, found_d) ↦
              find_by_indexed c name value v found_c
              ∙ ap (filter (has_key name key)) records
              ∙ sym (find_by_indexed d name value w found_d)
        ]
      ]
