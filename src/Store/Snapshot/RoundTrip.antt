-- ===== src/Store/Snapshot/RoundTrip.antt =====
-- A snapshot that is restored gives back what a reader of the collection can see.
use emulate.Prelude.{
  ◌≡◌, refl, ◌∙◌, ap₂, inl, inr, some, false, true, List, [], ◌∷◌, map, String, string_eq, ◌==◌,
  if◌then◌else◌, arith, Option-cases, contains, All,
}
use mathlib.Core.Path.{fun_ext}
use emulate.Prelude.Int.{ℤ, pos, negsuc, int_eq, int_order, int_beq_iff, int_less}
use emulate.Prelude.Result.{ok, ◌>>=◌}
use emulate.Prelude.Sort.{
  IsDistinct, sort, All-of_contains, contains-sort, sort-IsSorted, IsSorted-IsDistinct,
  eq_of_IsSorted,
}
use emulate.Prelude.Assoc.{keys, lookup, lookup-put, contains-keys}
use emulate.Store.Value.{Value, Fields, Formats, int, set_field}
use emulate.Store.Value.Laws.{clone_record-eq, set_field_self}
use emulate.Store.Fields.{normalize_fields}
use emulate.Store.Fields.Laws.{same_strings_iff}
use emulate.Store.Collection.{Collection, own_id, bump, is_positive, copy_at, all_records, find_by}
use emulate.Store.Collection.Fresh.{IsFresh}
use emulate.Store.Collection.Find.{find_by-ext}
use emulate.Store.Collection.Mirror.{Records, IsNamed, numeric_id_of_IsNamed}
use emulate.Store.Collection.Invariant.{IsValid}
use emulate.Store.Snapshot.{snapshot, checked_items, load, load_all, emptied, restore}
use emulate.Store.Snapshot.Loading.{loaded_id_of_IsNamed, restore-IsValid}

-- The id is that of a record, positive and below the bound.
abbrev IsStored : Records → ℤ → ℤ → Type 0
IsStored items auto id =
    (item : Fields) × (lookup id items ≡ some item)
    × IsNamed id item
    × (is_positive id ≡ true)
    × (int_less id auto ≡ true)

sorted_keys-IsStored :
    (go : Formats) (c : Collection)
    → IsValid go c
    → IsFresh c
    → All (IsStored c.items c.auto_id) (sort (keys c.items))
sorted_keys-IsStored go c v f = All-of_contains (sort (keys c.items)) (λ id there.
    elim (Option-cases (lookup id c.items)) [
      | inl absent ↦ cc (contains-sort id (keys c.items), contains-keys id c.items)
      | inr (item, stored) ↦
          (item, stored, v.named id item stored, (f.ids id item stored).0, (f.ids id item stored).1)
    ])

module _ (go : Formats) (items : Records) (auto : ℤ) where
  copy_at-eq : (id : ℤ) (item : Fields) → lookup id items ≡ some item → copy_at items id ≡ item
  unfolding copy_at
  copy_at-eq id item stored = rw (stored, copy_at) (clone_record-eq item)

  own_id_of_IsNamed :
      (id : ℤ) (item : Fields) → IsNamed id item → is_positive id ≡ true → own_id go item ≡ some id
  unfolding own_id
  own_id_of_IsNamed id item h p = ground (arith, numeric_id_of_IsNamed go id item h)

  checked_items-fresh :
      (seen : List ℤ) (id : ℤ) (item : Fields) (rest : List Fields)
      → own_id go item ≡ some id
      → contains id seen ≡ false
      → checked_items go seen (item ∷ rest)
        ≡ (checked_items go (id ∷ seen) rest >>= λ rs. ok (set_field "id" (int id) item ∷ rs))
  unfolding checked_items
  checked_items-fresh seen id item rest own fresh =
      rw (own, fresh, checked_items) (rw clone_record-eq)

  -- The first loop of `Restore` accepts copies of stored records as they are.
  checked_items-copy :
      (seen ids : List ℤ)
      → All (IsStored items auto) ids
      → IsDistinct ids
      → ((id : ℤ) → contains id ids ≡ true → contains id seen ≡ false)
      → checked_items go seen (map (copy_at items) ids) ≡ ok (map (copy_at items) ids)
  unfolding checked_items contains
  checked_items-copy seen [] s d h = refl
  checked_items-copy seen (id ∷ ids) ((item, stored, named, p, less), s) (new, d) h =
      let rest = map (copy_at items) ids in
      let ih =
        checked_items-copy (id ∷ seen) ids s d (λ i there. ground (arith, h i, int_beq_iff i id)) in
      let fresh : contains id seen ≡ false = ground (arith, h id, int_beq_iff id id) in
      rw (copy_at-eq id item stored) (
        checked_items-fresh seen id item rest (own_id_of_IsNamed id item named p) fresh
        ∙ rw (ih, set_field_self "id" (int id) item named))

  lookup-load :
      (c : Collection) (id j : ℤ) (item : Fields)
      → lookup j items ≡ some item
      → IsNamed j item
      → lookup id (load go c (copy_at items j)).items
        ≡ (if id == j then some item else lookup id c.items)
  unfolding load
  lookup-load c id j item stored named =
      rw (copy_at-eq j item stored)
        (rw (loaded_id_of_IsNamed go j item named) (lookup-put j id item c.items))

  auto_id-load :
      (c : Collection) (j : ℤ) (item : Fields)
      → c.auto_id ≡ auto
      → lookup j items ≡ some item
      → IsNamed j item
      → int_less j auto ≡ true
      → (load go c (copy_at items j)).auto_id ≡ auto
  unfolding load bump
  auto_id-load c j item h stored named less =
      rw (copy_at-eq j item stored) (rw (loaded_id_of_IsNamed go j item named) (rw h (rw less)))

  lookup-load_all :
      (c : Collection) (ids : List ℤ) (id : ℤ)
      → All (IsStored items auto) ids
      → lookup id (load_all go c (map (copy_at items) ids)).items
        ≡ (if contains id ids then lookup id items else lookup id c.items)
  unfolding load_all contains
  lookup-load_all c [] id s = refl
  lookup-load_all c (j ∷ ids) id ((item, stored, named, p, less), s) = ground (
    arith,
    lookup-load_all (load go c (copy_at items j)) ids id s,
    lookup-load c id j item stored named,
    int_beq_iff id j,
  )

  auto_id-load_all :
      (c : Collection) (ids : List ℤ)
      → c.auto_id ≡ auto
      → All (IsStored items auto) ids
      → (load_all go c (map (copy_at items) ids)).auto_id ≡ auto
  unfolding load_all
  auto_id-load_all c [] h s = h
  auto_id-load_all c (j ∷ ids) h ((item, stored, named, p, less), s) =
      auto_id-load_all (load go c (copy_at items j)) ids (auto_id-load c j item h stored named less)
        s

-- The index fields of a collection that is to be loaded are the given ones.
index_fields-emptied :
    (d : Collection) (names : List String) (auto : ℤ) → (emptied d names auto).index_fields ≡ names
unfolding emptied
index_fields-emptied d names auto = ground (arith, same_strings_iff d.index_fields names)

not_below_one : (id : ℤ) → is_positive id ≡ true → int_less id (pos 1) ≡ false
not_below_one (pos n) h = ground arith
not_below_one (negsuc n) h = cc

auto_id-emptied :
    (d : Collection) (names : List String) (auto : ℤ)
    → is_positive auto ≡ true
    → (emptied d names auto).auto_id ≡ auto
unfolding emptied
auto_id-emptied d names auto h = rw (not_below_one auto h)

index_fields-load_all :
    (go : Formats) (c : Collection) (records : List Fields)
    → (load_all go c records).index_fields ≡ c.index_fields
unfolding load_all load
index_fields-load_all go c [] = refl
index_fields-load_all go c (r ∷ rs) = index_fields-load_all go (load go c r) rs

-- Two valid collections that have the same records by id list the same records.
all_records-ext :
    (go : Formats) (c d : Collection)
    → IsValid go c
    → IsValid go d
    → ((id : ℤ) → lookup id c.items ≡ lookup id d.items)
    → all_records c ≡ all_records d
unfolding all_records copy_at
all_records-ext go c d v w h = ap₂ map (fun_ext (λ id. rw (h id, copy_at))) (
    eq_of_IsSorted (sort (keys c.items)) (sort (keys d.items))
      (sort-IsSorted (keys c.items) v.distinct) (sort-IsSorted (keys d.items) w.distinct)
      (λ id. ground (
        arith,
        h id,
        contains-sort id (keys c.items),
        contains-sort id (keys d.items),
        contains-keys id c.items,
        contains-keys id d.items,
      )))

module _ (go : Formats) (c d : Collection) (v : IsValid go c) (f : IsFresh c) where
  abbrev restored : Collection
  restored = load_all go (emptied d (normalize_fields c.index_fields) c.auto_id) (all_records c)

  restore-snapshot_lem : restore go d (snapshot c) ≡ ok restored
  unfolding restore snapshot all_records contains
  restore-snapshot_lem = rw (
      checked_items-copy go c.items c.auto_id [] (sort (keys c.items))
        (sorted_keys-IsStored go c v f)
        (IsSorted-IsDistinct (sort (keys c.items)) (sort-IsSorted (keys c.items) v.distinct))
        (λ id there. refl))

  lookup-restored : (id : ℤ) → lookup id restored.items ≡ lookup id c.items
  unfolding all_records emptied lookup
  lookup-restored id =
      lookup-load_all go c.items c.auto_id _ (sort (keys c.items)) id
        (sorted_keys-IsStored go c v f)
      ∙ ground (arith, contains-sort id (keys c.items), contains-keys id c.items)

  auto_id-restored : restored.auto_id ≡ c.auto_id
  unfolding all_records emptied
  auto_id-restored =
      auto_id-load_all go c.items c.auto_id (emptied d (normalize_fields c.index_fields) c.auto_id)
        (sort (keys c.items))
        (auto_id-emptied d (normalize_fields c.index_fields) c.auto_id f.positive)
        (sorted_keys-IsStored go c v f)

  -- The snapshot of a valid, fresh collection whose index fields are in normal form can be
  -- restored into any valid collection, which then gives the same snapshot, and the same records
  -- for every search.
  pub restore-snapshot :
      IsValid go d
      → normalize_fields c.index_fields ≡ c.index_fields
      → (e : Collection) × (restore go d (snapshot c) ≡ ok e)
        × (snapshot e ≡ snapshot c)
        × ((name : String) (value : Value) → find_by go e name value ≡ find_by go c name value)
  unfolding snapshot
  restore-snapshot w n =
      let valid = restore-IsValid go d restored (snapshot c) w restore-snapshot_lem in
      let listed = all_records-ext go restored c valid v lookup-restored in
      let fields =
        index_fields-load_all go _ (all_records c)
        ∙ index_fields-emptied d (normalize_fields c.index_fields) c.auto_id
        ∙ n in
      (
        restored,
        restore-snapshot_lem,
        (λ i. record { items = listed i; auto_id = auto_id-restored i; index_fields = fields i }),
        (λ name value. find_by-ext go restored c name value valid v fields listed),
      )
