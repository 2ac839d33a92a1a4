-- ===== src/Sqs/Fields.antt =====
-- Reading of records in internal/services/aws/sqs/handler.go: `stringField`, `intField`,
-- `recordField` and the like.
use emulate.Prelude.{
  ℕ, ◌+◌, ◌/◌, ◌%◌, ◌++◌, length, Bool, true, false, Option, none, some, List, [], ◌∷◌, ltb, String,
  if◌then◌else◌, nat_eq, ◌==◌,
}
use Prim.Native.Char.{Char, code}
use Prim.Native.String
use emulate.Prelude.Int.{ℤ, pos}
use emulate.Prelude.Text.{text_order}
use emulate.Prelude.Sort.{sort}
use emulate.Store.Value.{
  Value, Fields, nil, bool, str, int, float, number, row, object, end, field, get_or_nil,
}

-- What the handler takes from the packages strconv, strings, fmt, crypto/md5,
-- encoding/hex and encoding/base64. `int_of_float` is the conversion of a float64 to an int, `atoi` gives none for an error.
pub record Platform : Type 0 where
  pub itoa : ℤ → String
  pub atoi : String → Option ℤ
  pub sprint : Value → String
  pub format_float : ℕ → String
  pub int_of_float : ℕ → ℤ
  pub equal_fold : String → String → Bool
  pub md5_sum_hex : List ℕ → String
  pub base64_decoders : List (String → Option (List ℕ))

-- The bytes of a character in UTF-8.
unfoldable pub char_bytes : ℕ → List ℕ
char_bytes c =
    if ltb c 128
    then c ∷ []
    else if ltb c 2048
    then (192 + c / 64) ∷ (128 + c % 64) ∷ []
    else if ltb c 65536
    then (224 + c / 4096) ∷ (128 + c / 64 % 64) ∷ (128 + c % 64) ∷ []
    else (240 + c / 262144) ∷ (128 + c / 4096 % 64) ∷ (128 + c / 64 % 64) ∷ (128 + c % 64) ∷ []

-- []byte(s)
unfoldable pub bytes_of : String → List ℕ
bytes_of String.[] = []
bytes_of (String.◌∷◌ c s) = char_bytes (code c) ++ bytes_of s

-- len([]byte(s))
unfoldable pub byte_length : String → ℕ
byte_length s = length (bytes_of s)

-- Texts joined with nothing between them.
unfoldable pub concat : List String → String
concat [] = ""
concat (s ∷ ss) = String.◌++◌ s (concat ss)

-- `xmlEscape` of a character
unfoldable pub escape_char : Char → String
escape_char c =
    if code c == b'&'
    then "&amp;"
    else if code c == b'<'
    then "&lt;"
    else if code c == b'>'
    then "&gt;"
    else if code c == b'"'
    then "&quot;"
    else if code c == b'\''
    then "&apos;"
    else String.◌∷◌ c String.[]

-- `xmlEscape`
unfoldable pub xml_escape : String → String
xml_escape String.[] = String.[]
xml_escape (String.◌∷◌ c s) = String.◌++◌ (escape_char c) (xml_escape s)

-- `recordValue`
unfoldable pub record_value : Value → Fields
record_value (row fs) = fs
record_value (object fs) = fs
record_value v = end

-- `recordField`
unfoldable pub record_field : Fields → String → Fields
record_field record_ name = record_value (get_or_nil name record_)

-- `cloneRecord` of this package, which copies the entries and not the values
unfoldable pub copy_record : Fields → Fields
copy_record end = end
copy_record (field k v fs) = field k v (copy_record fs)

-- The names of a record's fields.
unfoldable pub field_names : Fields → List String
field_names end = []
field_names (field k v fs) = k ∷ field_names fs

-- `sortedRecordKeys`
unfoldable pub sorted_record_keys : Fields → List String
sorted_record_keys fs = sort ⦃o = text_order⦄ (field_names fs)

-- `boolField` of a value
unfoldable pub bool_value : Value → Bool
bool_value (bool b) = b
bool_value v = false

-- `boolField`
unfoldable pub bool_field : Fields → String → Bool
bool_field record_ name = bool_value (get_or_nil name record_)

module _ (go : Platform) where
  -- `stringField` of a value
  unfoldable pub string_value : Value → String
  string_value (str s) = s
  string_value nil = ""
  string_value v = go.sprint v

  -- `stringField`
  unfoldable pub string_field : Fields → String → String
  string_field record_ name = string_value (get_or_nil name record_)

  -- `intField` and `int64Field` of a value; no other width than int and int64 is ever stored
  unfoldable pub int_value : Value → ℤ
  int_value (int n) = n
  int_value (float bits) = go.int_of_float bits
  int_value v = pos 0

  -- `intField`
  unfoldable pub int_field : Fields → String → ℤ
  int_field record_ name = int_value (get_or_nil name record_)

  -- `int64Field`, which reads the same values, an int being an int64 here
  unfoldable pub int64_field : Fields → String → ℤ
  int64_field record_ name = int_value (get_or_nil name record_)

  -- `intParam`
  unfoldable pub int_param : String → ℤ → ℤ
  int_param raw fallback = elim (go.atoi raw) [ none ↦ fallback | some value ↦ value ]

  -- `scalarString`
  unfoldable pub scalar_string : Value → String
  scalar_string nil = ""
  scalar_string (str s) = s
  scalar_string (number s) = s
  scalar_string (float bits) = go.format_float bits
  scalar_string (bool true) = "true"
  scalar_string (bool false) = "false"
  scalar_string v = go.sprint v
