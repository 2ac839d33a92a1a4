-- ===== src/Store/Snapshot/Loading.antt =====
-- What `Restore` accepts, and that what it loads is valid.
use emulate.Prelude.{
  ◌≡◌, refl, ◌∙◌, inl, inr, none, some, false, List, [], ◌∷◌, String, string_eq, arith,
  Option-cases, Bool-cases, contains,
}
use emulate.Prelude.Int.{ℤ, int_eq, int_beq_iff}
use emulate.Prelude.Result.{ok, >>=-eq-ok, ok_inj}
use emulate.Prelude.Assoc.{lookup, put, lookup-put, is_some, put-IsDistinct}
use emulate.Store.Value.{Fields, Formats, int, set_field, clone_record}
use emulate.Store.Value.Laws.{get_field-set_field, clone_record-eq}
use emulate.Store.Fields.{normalize_fields, same_strings}
use emulate.Store.Collection.{Collection, own_id, empty_indexes}
use emulate.Store.Collection.Mirror.{
  Records, IsNamed, is_some-lookup-add_to_indexes, add_to_indexes-Mirrors, numeric_id_of_IsNamed,
}
use emulate.Store.Collection.Invariant.{IsValid, cleared-IsValid, lookup-empty_indexes}
use emulate.Store.Snapshot.{
  CollectionSnapshot, checked_items, loaded_id, load, load_all, emptied, restore,
}

module _ (go : Formats) where
  -- Records that bear ids which are not in use, each another one.
  abbrev pub Loadable : Records → List Fields → Type 0
  Loadable items [] = Unit
  Loadable items (r ∷ rs) =
      (id : ℤ) × IsNamed id r × (lookup id items ≡ none) × Loadable (put id r items) rs

  -- What an accepted list begins with.
  checked_items-cons :
      (seen : List ℤ) (item : Fields) (items records : List Fields)
      → checked_items go seen (item ∷ items) ≡ ok records
      → (id : ℤ) × (rest : List Fields) × (own_id go item ≡ some id)
        × (contains id seen ≡ false)
        × (checked_items go (id ∷ seen) items ≡ ok rest)
        × (records ≡ set_field "id" (int id) item ∷ rest)
  unfolding checked_items
  checked_items-cons seen item items records e = elim (Option-cases (own_id go item)) [
    | inl missing ↦ cc (rw (missing, checked_items) at e)
    | inr (id, own) ↦ elim (Bool-cases (contains id seen)) [
      | inl again ↦ cc (rw (own, again, checked_items) at e)
      | inr fresh ↦
          let (rest, checked, same) =
            >>=-eq-ok (checked_items go (id ∷ seen) items)
              (λ rs. ok (set_field "id" (int id) (clone_record item) ∷ rs)) {last = records}
              (rw (own, fresh, checked_items) at e) in
          (id, rest, own, fresh, checked, cc (clone_record-eq item))
    ]
  ]

  checked_items-Loadable :
      (seen : List ℤ) (items : List Fields) (stored : Records) (records : List Fields)
      → ((id : ℤ) → contains id seen ≡ is_some (lookup id stored))
      → checked_items go seen items ≡ ok records
      → Loadable stored records
  unfolding contains
  checked_items-Loadable seen [] stored [] h e = tt
  checked_items-Loadable seen [] stored (r ∷ rs) h e = unfold checked_items in cc
  checked_items-Loadable seen (item ∷ items) stored records h e =
      let (id, rest, own, fresh, checked, same) = checked_items-cons seen item items records e in
      let first = set_field "id" (int id) item in
      rw same (
        id,
        get_field-set_field "id" "id" (int id) item,
        ground (arith, h id),
        checked_items-Loadable (id ∷ seen) items (put id first stored) rest
            (λ i. ground (arith, h i, lookup-put id i first stored)) checked,
      )

  pub loaded_id_of_IsNamed : (id : ℤ) (item : Fields) → IsNamed id item → loaded_id go item ≡ id
  unfolding loaded_id
  loaded_id_of_IsNamed id item h = ground (arith, numeric_id_of_IsNamed go id item h)

  load-IsValid :
      (c : Collection) (id : ℤ) (item : Fields)
      → IsValid go c
      → IsNamed id item
      → lookup id c.items ≡ none
      → IsValid go (load go c item)
  unfolding load
  load-IsValid c id item v h absent = rw (loaded_id_of_IsNamed id item h) (record {
    distinct = put-IsDistinct id item c.items v.distinct;
    named = λ j other found.
        ground (arith, lookup-put id j item c.items, v.named j other, int_beq_iff j id);
    mirrored = add_to_indexes-Mirrors go id item c.items c.indexes h absent v.mirrored;
    covered = λ name. is_some-lookup-add_to_indexes go item name c.indexes ∙ v.covered name;
  })

  load_all-IsValid :
      (c : Collection) (records : List Fields)
      → IsValid go c
      → Loadable c.items records
      → IsValid go (load_all go c records)
  unfolding load_all
  load_all-IsValid c [] v h = v
  load_all-IsValid c (r ∷ rs) v (id, h, absent, more) =
      load_all-IsValid (load go c r) rs (load-IsValid c id r v h absent)
        (unfold load in rw (loaded_id_of_IsNamed id r h) more)

  emptied-IsValid :
      (c : Collection) (names : List String) (auto : ℤ)
      → IsValid go c
      → IsValid go (emptied c names auto)
  unfolding emptied
  emptied-IsValid c names auto v = elim (Bool-cases (same_strings c.index_fields names)) [
    | inl same ↦ rw same (cleared-IsValid go c.indexes c.index_fields _ v.covered)
    | inr other ↦ rw other (
        cleared-IsValid go (empty_indexes names) names _
          (λ name. ground (arith, lookup-empty_indexes name names)))
  ]

  emptied-Loadable :
      (c : Collection) (names : List String) (auto : ℤ) (items records : List Fields)
      → checked_items go [] items ≡ ok records
      → Loadable (emptied c names auto).items records
  unfolding emptied lookup contains
  emptied-Loadable c names auto items records checked =
      checked_items-Loadable [] items [] records (λ id. refl) checked

  -- Whatever the snapshot, a `Restore` into a valid collection that gives no error leaves a valid
  -- collection.
  pub restore-IsValid :
      (c c' : Collection) (s : CollectionSnapshot)
      → IsValid go c
      → restore go c s ≡ ok c'
      → IsValid go c'
  unfolding restore
  restore-IsValid c c' s v e =
      let names = normalize_fields s.index_fields in
      let start = emptied c names s.auto_id in
      let (records, checked, same) =
        >>=-eq-ok (checked_items go [] s.items) (λ rs. ok (load_all go start rs)) {last = c'} e in
      let loaded = ok_inj same in
      rw loaded at (
        load_all-IsValid start records (emptied-IsValid c names s.auto_id v)
          (emptied-Loadable c names s.auto_id s.items records checked))
