-- ===== src/Store/Value.antt =====
-- The values of internal/core/store/store.go: `Record`, what stands under `any`, `numericID`,
-- `indexKey`, `cloneRecord` and `cloneValue`. A nil map or slice and an empty one are one value
-- here: the package reads both alike. Values are immutable here, so a copy shares nothing.
pub mod Laws
use emulate.Prelude.{
  ℕ, Option, none, some, Bool, true, false, List, String, string_eq, ◌==◌, if◌then◌else◌,
}
use emulate.Prelude.Int.{ℤ, of_unsigned}

mutual
  -- The dynamic types that the package tells apart; `opaque` is any other, such as a time.
  pub data Value : Type 0 where
    nil : Value
    bool : Bool → Value
    str : String → Value
    -- `int` and `int8` to `int64`
    int : ℤ → Value
    -- `uint` and `uint8` to `uint64`
    unsigned : ℕ → Value
    -- `float64`, by its bits
    float : ℕ → Value
    -- `json.Number`
    number : String → Value
    -- `Record`
    row : Fields → Value
    -- `map[string]any`
    object : Fields → Value
    -- `[]Record`
    rows : Rows → Value
    -- `[]map[string]any`
    objects : Rows → Value
    -- `[]any`
    array : Items → Value
    -- `[]string`
    texts : List String → Value
    -- `[]int`
    ints : List ℤ → Value
    opaque : String → Value

  pub data Items : Type 0 where
    no_items : Items
    item : Value → Items → Items

  pub data Rows : Type 0 where
    no_rows : Rows
    next_row : Fields → Rows → Rows

  -- The entries of a map from strings.
  pub data Fields : Type 0 where
    end : Fields
    field : String → Value → Fields → Fields

-- What the Go library computes: `fmt.Sprint`, `int(v)` where `float64(int(v)) == v`, and
-- `json.Number.Int64`.
pub record Formats : Type 0 where
  pub sprint : Value → String
  pub whole_float : ℕ → Option ℤ
  pub parse_int64 : String → Option ℤ

-- record[k], with whether it is there
unfoldable pub get_field : String → Fields → Option Value
get_field k end = none
get_field k (field j v fs) = if k == j then some v else get_field k fs

-- record[k] = v
unfoldable pub set_field : String → Value → Fields → Fields
set_field k v end = field k v end
set_field k v (field j w fs) = if k == j then field j v fs else field j w (set_field k v fs)

-- record[k] where no entry reads as nil
abbrev pub get_or_nil : String → Fields → Value
get_or_nil k fs = elim (get_field k fs) [ none ↦ nil | some v ↦ v ]

unfoldable mutual
  pub clone_value : Value → Value
  clone_value nil = nil
  clone_value (bool b) = bool b
  clone_value (str s) = str s
  clone_value (int n) = int n
  clone_value (unsigned n) = unsigned n
  clone_value (float n) = float n
  clone_value (number s) = number s
  clone_value (row fs) = row (clone_record fs)
  clone_value (object fs) = object (clone_record fs)
  clone_value (rows rs) = rows (clone_rows rs)
  clone_value (objects rs) = objects (clone_rows rs)
  clone_value (array xs) = array (clone_items xs)
  clone_value (texts ss) = texts ss
  clone_value (ints ns) = ints ns
  clone_value (opaque s) = opaque s

  pub clone_items : Items → Items
  clone_items no_items = no_items
  clone_items (item v xs) = item (clone_value v) (clone_items xs)

  pub clone_rows : Rows → Rows
  clone_rows no_rows = no_rows
  clone_rows (next_row fs rs) = next_row (clone_record fs) (clone_rows rs)

  pub clone_record : Fields → Fields
  clone_record end = end
  clone_record (field k v fs) = field k (clone_value v) (clone_record fs)

-- `numericID`: none where its second result is false
unfoldable pub numeric_id : Formats → Value → Option ℤ
numeric_id go (int n) = some n
numeric_id go (unsigned n) = some (of_unsigned n)
numeric_id go (float bits) = go.whole_float bits
numeric_id go (number s) = go.parse_int64 s
numeric_id go _ = none

-- `indexKey`
abbrev pub index_key : Formats → Value → String
index_key go v = go.sprint v

-- The test of `addToIndexes` and `removeFromIndexes`: a missing or nil field has no key.
key_of : Formats → Option Value → Option String
key_of go none = none
key_of go (some nil) = none
key_of go (some v) = some (index_key go v)

-- The key under which an index on the field files a record.
unfoldable pub filed_key : Formats → String → Fields → Option String
unfolding key_of
filed_key go name fs = key_of go (get_field name fs)

-- The loop of `Update` and `UpdateFunc` over the patch, which leaves the id alone.
unfoldable pub patch_record : Fields → Fields → Fields
patch_record base end = base
patch_record base (field k v fs) =
    let rest = patch_record base fs in if k == "id" then rest else set_field k (clone_value v) rest
