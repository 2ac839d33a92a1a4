-- ===== src/Store/Collection/Invariant.antt =====
-- The invariant of a collection, and that every method keeps it.
use emulate.Prelude.{
  ◌≡◌, refl, sym, ◌∙◌, inl, inr, Option, none, some, List, [], ◌∷◌, String, string_eq,
  if◌then◌else◌, arith, Option-cases, contains,
}
use emulate.Prelude.Int.{ℤ, int_eq, int_beq_iff}
use emulate.Prelude.Sort.{IsDistinct}
use emulate.Prelude.Assoc.{
  keys, lookup, put, erase, map_values, lookup-put, lookup-erase, lookup-map_values, is_some,
  is_some-lookup-map_values, put-IsDistinct, erase-IsDistinct,
}
use mathlib.Core.Option
use emulate.Store.Value.{Fields, Formats, str, int, set_field, patch_record, clone_record}
use emulate.Store.Value.Laws.{get_field-set_field, get_field-patch_record, clone_record-eq}
use emulate.Store.Index.{Index, Indexes, add_to_indexes}
use emulate.Store.Index.Laws.{Represents-empty}
use emulate.Store.Collection.{
  Collection, without_existing, new_collection, empty_indexes, stamped, default_created, insert,
  chosen_id, apply_patch, update, apply_result, update_func, delete, clear, cleared_indexes,
}
use emulate.Store.Collection.Mirror.{
  is_some-lookup-add_to_indexes, is_some-lookup-remove_from_indexes,
  is_some-lookup-without_existing, IsNamed, Mirrors, Mirrors-ext, remove_from_indexes-Mirrors,
  add_to_indexes-Mirrors,
}

-- Ids are distinct, every record bears its own, the indexes mirror the records, and each index
-- field has one.
pub record IsValid (go : Formats) (c : Collection) : Type 0 where
  pub distinct : IsDistinct (keys c.items)
  pub named : (id : ℤ) (item : Fields) → lookup id c.items ≡ some item → IsNamed id item
  pub mirrored : Mirrors go c.items c.indexes
  pub covered : (name : String) → is_some (lookup name c.indexes) ≡ contains name c.index_fields

-- The collection after a method that may leave it alone.
abbrev pub changed : Collection → Option (Collection × Fields) → Collection
changed c none = c
changed c (some (c', out)) = c'

pub lookup-empty_indexes :
    (name : String) (names : List String)
    → lookup name (empty_indexes names) ≡ (if contains name names then some [] else none)
unfolding empty_indexes lookup contains
lookup-empty_indexes name [] = refl
lookup-empty_indexes name (n ∷ names) =
    ground (
      arith,
      lookup-put {V = Index} n name [] (empty_indexes names),
      lookup-empty_indexes name names,
    )

module _ (go : Formats) where
  Mirrors-nil :
      (indexes : Indexes)
      → ((name : String) (index : Index) → lookup name indexes ≡ some index → index ≡ [])
      → Mirrors go [] indexes
  unfolding lookup
  Mirrors-nil indexes h name index found = rw (h name index found) Represents-empty

  pub new_collection-IsValid : (names : List String) → IsValid go (new_collection names)
  unfolding new_collection lookup
  new_collection-IsValid names = record {
    distinct = tt;
    named = λ id item h. cc;
    mirrored =
        Mirrors-nil (empty_indexes names)
          (λ name index found. ground (arith, lookup-empty_indexes name names));
    covered = λ name. ground (arith, lookup-empty_indexes name names);
  }

  -- A collection with no record and with empty indexes.
  pub cleared-IsValid :
      (indexes : Indexes) (names : List String) (auto : ℤ)
      → ((name : String) → is_some (lookup name indexes) ≡ contains name names)
      → IsValid go (record {
        items = [];
        indexes = cleared_indexes indexes;
        index_fields = names;
        auto_id = auto;
      })
  unfolding cleared_indexes lookup
  cleared-IsValid indexes names auto h = record {
    distinct = tt;
    named = λ id item h. cc;
    mirrored = Mirrors-nil (map_values (λ _ _. []) indexes) (λ name index found.
        let (old, was, same) =
          (Option.map-eq-some_iff _ _).0
            (sym (lookup-map_values (λ _ _. []) name indexes) ∙ found) in
        sym same);
    covered = λ name. is_some-lookup-map_values (λ _ _. []) name indexes ∙ h name;
  }

  pub clear-IsValid : (c : Collection) → IsValid go c → IsValid go (clear c)
  unfolding clear
  clear-IsValid c v = cleared-IsValid c.indexes c.index_fields _ v.covered

  -- Taking the old record out of the indexes, if there is one, goes with its deletion.
  without_existing-Mirrors :
      (c : Collection) (id : ℤ)
      → IsValid go c
      → Mirrors go (erase id c.items) (without_existing go (lookup id c.items) c.indexes)
  unfolding without_existing
  without_existing-Mirrors c id v = elim (Option-cases (lookup id c.items)) [
    | inl absent ↦ rw absent (
        Mirrors-ext go c.items (erase id c.items) c.indexes
          (λ i. ground (arith, lookup-erase id i c.items, int_beq_iff i id)) v.mirrored)
    | inr (item, stored) ↦ rw stored (
        remove_from_indexes-Mirrors go id item c.items c.indexes (v.named id item stored) stored
          v.mirrored)
  ]

  -- A record that bears its id may take the place of what is stored under the id.
  pub replace-IsValid :
      (c : Collection) (id auto : ℤ) (item : Fields)
      → IsValid go c
      → IsNamed id item
      → IsValid go (record c {
        items = put id item c.items;
        indexes = add_to_indexes go item (without_existing go (lookup id c.items) c.indexes);
        auto_id = auto;
      })
  replace-IsValid c id auto item v h = record {
    distinct = put-IsDistinct id item c.items v.distinct;
    named = λ j other found.
        ground (arith, lookup-put id j item c.items, v.named j other, int_beq_iff j id);
    mirrored =
        let rest = erase id c.items in
        Mirrors-ext go (put id item rest) (put id item c.items) _
          (λ j. ground (
            arith,
            lookup-put id j item c.items,
            lookup-put id j item rest,
            lookup-erase id j c.items,
          ))
          (add_to_indexes-Mirrors go id item rest _ h (ground (arith, lookup-erase id id c.items))
            (without_existing-Mirrors c id v));
    covered = λ name.
        is_some-lookup-add_to_indexes go item name _
        ∙ is_some-lookup-without_existing go (lookup id c.items) name c.indexes
        ∙ v.covered name;
  }

  stamped-IsNamed : (now : String) (id : ℤ) (item : Fields) → IsNamed id (stamped now id item)
  unfolding stamped default_created
  stamped-IsNamed now id item =
      let named = set_field "id" (int id) item in
      ground (
        arith,
        get_field-set_field "updated_at" "id" (str now) (default_created now named),
        get_field-set_field "created_at" "id" (str now) named,
        get_field-set_field "id" "id" (int id) item,
      )

  -- `Insert` keeps the invariant, whatever the record holds.
  pub insert-IsValid :
      (now : String) (c : Collection) (item : Fields)
      → IsValid go c
      → IsValid go (insert go now c item).0
  unfolding insert
  insert-IsValid now c item v =
      let id = chosen_id go c (clone_record item) in
      replace-IsValid c id _ _ v (stamped-IsNamed now id (clone_record item))

  apply_patch-IsNamed :
      (now : String) (id : ℤ) (existing patch : Fields)
      → IsNamed id existing
      → IsNamed id (set_field "updated_at" (str now) (patch_record (clone_record existing) patch))
  apply_patch-IsNamed now id existing patch h = rw clone_record-eq (
      ground (
        arith,
        get_field-set_field "updated_at" "id" (str now) (patch_record existing patch),
        get_field-patch_record "id" existing patch,
      ))

  pub apply_patch-IsValid :
      (now : String) (c : Collection) (id : ℤ) (existing patch : Fields)
      → IsValid go c
      → lookup id c.items ≡ some existing
      → IsValid go (apply_patch go now c id existing patch).0
  unfolding apply_patch without_existing
  apply_patch-IsValid now c id existing patch v stored =
      let named = apply_patch-IsNamed now id existing patch (v.named id existing stored) in
      rw stored at (replace-IsValid c id c.auto_id _ v named)

  pub update-IsValid :
      (now : String) (c : Collection) (id : ℤ) (patch : Fields)
      → IsValid go c
      → IsValid go (changed c (update go now c id patch))
  unfolding update
  update-IsValid now c id patch v = elim (Option-cases (lookup id c.items)) [
    | inl absent ↦ rw (absent, update) v
    | inr (existing, stored) ↦
        rw (stored, update) (apply_patch-IsValid now c id existing patch v stored)
  ]

  apply_result-IsValid :
      (now : String) (c : Collection) (id : ℤ) (existing : Fields) (result : Option Fields)
      → IsValid go c
      → lookup id c.items ≡ some existing
      → IsValid go (changed c (apply_result go now c id existing result))
  unfolding apply_result
  apply_result-IsValid now c id existing none v stored = v
  apply_result-IsValid now c id existing (some patch) v stored =
      apply_patch-IsValid now c id existing patch v stored

  pub update_func-IsValid :
      (now : String) (c : Collection) (id : ℤ) (fn : Option (Fields → Option Fields))
      → IsValid go c
      → IsValid go (changed c (update_func go now c id fn))
  unfolding update_func
  update_func-IsValid now c id none v = v
  update_func-IsValid now c id (some fn) v = elim (Option-cases (lookup id c.items)) [
    | inl absent ↦ rw (absent, update_func) v
    | inr (existing, stored) ↦
        rw (stored, update_func)
          (apply_result-IsValid now c id existing (fn (clone_record existing)) v stored)
  ]

  pub delete-IsValid : (c : Collection) (id : ℤ) → IsValid go c → IsValid go (delete go c id).0
  unfolding delete without_existing
  delete-IsValid c id v = elim (Option-cases (lookup id c.items)) [
    | inl absent ↦ rw (absent, delete) v
    | inr (existing, stored) ↦
        rw (stored, delete)
          (record {
            distinct = erase-IsDistinct id c.items v.distinct;
            named = λ j other found. ground (arith, lookup-erase id j c.items, v.named j other);
            mirrored = rw stored at (without_existing-Mirrors c id v);
            covered = λ name.
                is_some-lookup-remove_from_indexes go existing name c.indexes ∙ v.covered name;
          })
  ]
