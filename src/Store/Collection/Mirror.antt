-- ===== src/Store/Collection/Mirror.antt =====
-- The indexes of a collection mirror its records.
use emulate.Prelude.{
  Option-cases, refl, inl, inr, ◌≡◌, sym, ◌∙◌, ap, Option, none, some, Bool, false, String,
  string_eq, arith,
}
use emulate.Prelude.Int.{ℤ, int_eq, int_beq_iff}
use emulate.Prelude.Assoc.{
  Assoc, lookup, put, erase, lookup-put, lookup-erase, lookup-map_values, is_some,
  is_some-lookup-map_values,
}
use mathlib.Core.Option
use emulate.Store.Value.{Fields, Formats, int, get_field, get_or_nil, numeric_id, filed_key}
use emulate.Store.Index.{Index, Indexes, file, unfile, add_to_indexes, remove_from_indexes}
use emulate.Store.Collection.{without_existing}
use emulate.Store.Index.Laws.{
  matches_key, Represents, Represents-ext, file-Represents, unfile-Represents,
}

abbrev pub Records : Type 0
Records = Assoc ℤ Fields

-- The record bears the id that it is stored under.
abbrev pub IsNamed : ℤ → Fields → Type 0
IsNamed id item = get_field "id" item ≡ some (int id)

module _ (go : Formats) where
  abbrev pub is_filed_as : String → String → Option Fields → Bool
  is_filed_as name key none = false
  is_filed_as name key (some item) = matches_key (filed_key go name item) key

  -- The records that an index on the field has under the key.
  abbrev pub is_filed : String → Records → String → ℤ → Bool
  is_filed name items key id = is_filed_as name key (lookup id items)

  -- Each index relates its keys to the records that have them.
  abbrev pub Mirrors : Records → Indexes → Type 0
  Mirrors items indexes =
      (name : String) (index : Index)
      → lookup name indexes ≡ some index
      → Represents index (is_filed name items)

  pub Mirrors-ext :
      (items items' : Records) (indexes : Indexes)
      → ((id : ℤ) → lookup id items ≡ lookup id items')
      → Mirrors items indexes
      → Mirrors items' indexes
  Mirrors-ext items items' indexes h m name index found =
      Represents-ext (m name index found) (λ key id. ap (is_filed_as name key) (h id))

  -- The numeric id of a record that bears its id.
  pub numeric_id_of_IsNamed :
      (id : ℤ) (item : Fields) → IsNamed id item → numeric_id go (get_or_nil "id" item) ≡ some id
  unfolding numeric_id
  numeric_id_of_IsNamed id item h = ground arith

  lookup-remove_from_indexes :
      (id : ℤ) (item : Fields) (name : String) (indexes : Indexes)
      → IsNamed id item
      → lookup name (remove_from_indexes go item indexes)
        ≡ Option.map (unfile id (filed_key go name item)) (lookup name indexes)
  unfolding remove_from_indexes
  lookup-remove_from_indexes id item name indexes h =
      rw (numeric_id_of_IsNamed id item h, remove_from_indexes) (lookup-map_values _ name indexes)

  lookup-add_to_indexes :
      (id : ℤ) (item : Fields) (name : String) (indexes : Indexes)
      → IsNamed id item
      → lookup name (add_to_indexes go item indexes)
        ≡ Option.map (file id (filed_key go name item)) (lookup name indexes)
  unfolding add_to_indexes
  lookup-add_to_indexes id item name indexes h =
      rw (numeric_id_of_IsNamed id item h, add_to_indexes) (lookup-map_values _ name indexes)

  -- `removeFromIndexes` of a stored record goes with its deletion.
  pub remove_from_indexes-Mirrors :
      (id : ℤ) (item : Fields) (items : Records) (indexes : Indexes)
      → IsNamed id item
      → lookup id items ≡ some item
      → Mirrors items indexes
      → Mirrors (erase id items) (remove_from_indexes go item indexes)
  remove_from_indexes-Mirrors id item items indexes h stored m name index found =
      let (old, was, same) =
        (Option.map-eq-some_iff _ _).0
          (sym (lookup-remove_from_indexes id item name indexes h) ∙ found) in
      rw (← same) (
        Represents-ext (unfile-Represents id (m name old was) (filed_key go name item))
          (λ key i. ground (arith, lookup-erase id i items, int_beq_iff i id)))

  -- `addToIndexes` of a new record goes with its insertion.
  pub add_to_indexes-Mirrors :
      (id : ℤ) (item : Fields) (items : Records) (indexes : Indexes)
      → IsNamed id item
      → lookup id items ≡ none
      → Mirrors items indexes
      → Mirrors (put id item items) (add_to_indexes go item indexes)
  add_to_indexes-Mirrors id item items indexes h absent m name index found =
      let (old, was, same) =
        (Option.map-eq-some_iff _ _).0
          (sym (lookup-add_to_indexes id item name indexes h) ∙ found) in
      rw (← same) (
        Represents-ext (file-Represents id (m name old was) (filed_key go name item))
          (λ key i. ground (arith, lookup-put id i item items, int_beq_iff i id)))

  -- Filing records adds no index and takes none away.
  pub is_some-lookup-add_to_indexes :
      (item : Fields) (name : String) (indexes : Indexes)
      → is_some (lookup name (add_to_indexes go item indexes)) ≡ is_some (lookup name indexes)
  unfolding add_to_indexes
  is_some-lookup-add_to_indexes item name indexes =
      elim (Option-cases (numeric_id go (get_or_nil "id" item))) [
        | inl unnamed ↦ rw (unnamed, add_to_indexes) refl
        | inr (id, named) ↦ rw (named, add_to_indexes) (is_some-lookup-map_values _ name indexes)
      ]

  pub is_some-lookup-remove_from_indexes :
      (item : Fields) (name : String) (indexes : Indexes)
      → is_some (lookup name (remove_from_indexes go item indexes)) ≡ is_some (lookup name indexes)
  unfolding remove_from_indexes
  is_some-lookup-remove_from_indexes item name indexes =
      elim (Option-cases (numeric_id go (get_or_nil "id" item))) [
        | inl unnamed ↦ rw (unnamed, remove_from_indexes) refl
        | inr (id, named) ↦
            rw (named, remove_from_indexes) (is_some-lookup-map_values _ name indexes)
      ]

  pub is_some-lookup-without_existing :
      (existing : Option Fields) (name : String) (indexes : Indexes)
      → is_some (lookup name (without_existing go existing indexes)) ≡ is_some (lookup name indexes)
  unfolding without_existing
  is_some-lookup-without_existing none name indexes = refl
  is_some-lookup-without_existing (some item) name indexes =
      is_some-lookup-remove_from_indexes item name indexes
