-- ===== src/Store/Value/Laws.antt =====
-- Reading a record after a write, a copy or a patch.
use emulate.Prelude.{◌≡◌, refl, ap, ap₂, none, some, String, string_eq, ◌==◌, if◌then◌else◌, arith}
use text.Mathlib.TextEquality.{eq_iff}
use emulate.Store.Value.{
  Value, Items, Rows, Fields, row, object, rows, objects, array, no_items, item, no_rows, next_row,
  end, field, get_field, set_field, clone_value, clone_items, clone_rows, clone_record,
  patch_record,
}

pub get_field-set_field :
    (k j : String) (v : Value) (fs : Fields)
    → get_field j (set_field k v fs) ≡ (if j == k then some v else get_field j fs)
unfolding get_field set_field
get_field-set_field k j v end = refl
get_field-set_field k j v (field i w fs) =
    ground (arith, get_field-set_field k j v fs, eq_iff k i, eq_iff j k, eq_iff j i)

mutual
  unfolding clone_value

  clone_value_lem : (v : Value) → clone_value v ≡ v
  clone_value_lem (row fs) = ap row (clone_record_lem fs)
  clone_value_lem (object fs) = ap object (clone_record_lem fs)
  clone_value_lem (rows rs) = ap rows (clone_rows_lem rs)
  clone_value_lem (objects rs) = ap objects (clone_rows_lem rs)
  clone_value_lem (array xs) = ap array (clone_items_lem xs)
  clone_value_lem _ = refl

  clone_items_lem : (xs : Items) → clone_items xs ≡ xs
  clone_items_lem no_items = refl
  clone_items_lem (item v xs) = ap₂ item (clone_value_lem v) (clone_items_lem xs)

  clone_rows_lem : (rs : Rows) → clone_rows rs ≡ rs
  clone_rows_lem no_rows = refl
  clone_rows_lem (next_row fs rs) = ap₂ next_row (clone_record_lem fs) (clone_rows_lem rs)

  clone_record_lem : (fs : Fields) → clone_record fs ≡ fs
  clone_record_lem end = refl
  clone_record_lem (field k v fs) = ap₂ (field k) (clone_value_lem v) (clone_record_lem fs)

pub clone_value-eq : (v : Value) → clone_value v ≡ v
clone_value-eq v = clone_value_lem v

-- A copy has the entries of the record.
pub clone_record-eq : (fs : Fields) → clone_record fs ≡ fs
clone_record-eq fs = clone_record_lem fs

-- A patched record has the patch's values, the base's where the patch has none, and the base's id.
pub get_field-patch_record :
    (k : String) (base patch : Fields)
    → get_field k (patch_record base patch) ≡ (
        if k == "id"
        then get_field k base
        else elim (get_field k patch) [ none ↦ get_field k base | some v ↦ some v ])
unfolding get_field patch_record
get_field-patch_record k base end = ground arith
get_field-patch_record k base (field j v fs) = rw (clone_value-eq v) (
    ground (
      arith,
      get_field-patch_record k base fs,
      get_field-set_field j k v (patch_record base fs),
      eq_iff k j,
      eq_iff j "id",
      eq_iff k "id",
    ))

-- Writing the value that is there changes nothing.
pub set_field_self :
    (k : String) (v : Value) (fs : Fields) → get_field k fs ≡ some v → set_field k v fs ≡ fs
unfolding get_field set_field
set_field_self k v end h = cc
set_field_self k v (field j w fs) h = ground (arith, set_field_self k v fs)
