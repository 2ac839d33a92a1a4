-- ===== src/Tests/Records.antt =====
-- The theorems of the store at concrete collections.
use emulate.Prelude.{
  ◌≡◌, ◌≢◌, refl, Option, none, some, Bool, true, false, List, [], ◌∷◌, String, string_eq, ◌==◌,
  if◌then◌else◌, contains, filter, All, ◌+◌,
}
use emulate.Prelude.Int.{pos, int_eq, max_int}
use emulate.Prelude.Text.{text_order}
use emulate.Prelude.Result.{Result, ok, err}
use emulate.Prelude.Sort.{IsSorted, sort}
use emulate.Prelude.Assoc.{map_values, lookup, put, is_some}
use emulate.Store.Value.{
  numeric_id, set_field, clone_record, filed_key, Value, Fields, Formats, str, int, nil, end, field,
  get_field, index_key,
}
use emulate.Store.Index.{add_to_indexes, file, add_id, bucket}
use emulate.Store.Fields.{normalize_fields, kept_fields}
use emulate.Store.Fields.Laws.{normalize_fields_idem, normalize_fields-IsSorted}
use emulate.Store.Collection.{
  Collection, insert_at, stamped, without_existing, default_created, empty_indexes, copy_at,
  new_collection, own_id, chosen_id, insert, get, update, delete, all_records, scanned_records,
  find_by, count,
}
use emulate.Store.Collection.Invariant.{IsValid}
use emulate.Store.Collection.Find.{has_key, HasField, find_by_indexed, find_by-eq-scanned_records}
use emulate.Store.Collection.Fresh.{IsFresh, insert-IsFresh, insert_new}
use emulate.Store.Collection.Access.{get-insert, get_field-insert, get-update, get-delete}
use emulate.Store.Collection.History.{
  perform, Call, insert_call, delete_call, perform_all, history-IsValid,
}
use emulate.Store.Database.{Database, new_database, placed, at, collection, get_data, reset}
use emulate.Store.Database.Laws.{collection_again, reset-empties}
use emulate.Store.Snapshot.{RestoreError, checked_items, CollectionSnapshot, snapshot, restore}
use emulate.Store.Snapshot.RoundTrip.{restore-snapshot}
use emulate.Store.Snapshot.Loading.{restore-IsValid}

abbrev sprint_text : Value → String
sprint_text (str s) = s
sprint_text v = "?"

abbrev formats : Formats
formats = record { sprint = sprint_text; whole_float = λ bits. none; parse_int64 = λ digits. none }

abbrev ann : Fields
ann = field "email" (str "ann@example.com") end

abbrev bob : Fields
bob = field "email" (str "bob@example.com") (field "id" (int (pos 7)) end)

abbrev by_email : List String
by_email = "email" ∷ []

abbrev empty : Collection
empty = new_collection (normalize_fields by_email)

abbrev one : Collection
one = (insert formats "t1" empty ann).0

abbrev calls : List Call
calls = insert_call "t1" ann ∷ []

abbrev more_calls : List Call
more_calls = insert_call "t1" ann ∷ insert_call "t2" bob ∷ delete_call (pos 1) ∷ []

history-IsValid_example :
    IsValid formats (perform_all formats (new_collection (normalize_fields by_email)) more_calls)
history-IsValid_example = history-IsValid formats by_email more_calls

empty-IsValid : IsValid formats empty
unfolding perform_all
empty-IsValid = history-IsValid formats by_email []

one-IsValid : IsValid formats one
unfolding perform_all insert perform
one-IsValid = history-IsValid formats by_email calls

absurd-none : {A : Type 0} {B : Type 0} {a : B} → ◌≡◌ {A = Option B} none (some a) → A
absurd-none e = cc

empty-IsFresh : IsFresh empty
unfolding new_collection lookup
empty-IsFresh = record { positive = refl; ids = λ id item found. absurd-none found }

first_id : chosen_id formats empty ann ≢ pos max_int
unfolding new_collection chosen_id own_id get_field numeric_id
first_id = cc

one_fields : normalize_fields one.index_fields ≡ one.index_fields
unfolding insert insert_at new_collection
one_fields = normalize_fields_idem by_email

restore-snapshot_example :
    (e : Collection) × (restore formats empty (snapshot one) ≡ ok e)
    × (snapshot e ≡ snapshot one)
    × ((name : String) (value : Value)
        → find_by formats e name value ≡ find_by formats one name value)
restore-snapshot_example =
    restore-snapshot formats one empty one-IsValid
      (insert-IsFresh formats "t1" empty ann empty-IsFresh first_id) empty-IsValid one_fields

some_there : {A : Type 0} (o : Option A) → is_some o ≡ true → (a : A) × (o ≡ some a)
some_there none h = cc
some_there (some a) h = (a, refl)

email_index : is_some (lookup "email" one.indexes) ≡ true
unfolding insert insert_at new_collection chosen_id own_id get_field set_field stamped
    without_existing default_created empty_indexes add_to_indexes file add_id bucket lookup put
    normalize_fields kept_fields sort filed_key clone_record numeric_id map_values contains
email_index = refl

find_by_indexed_example :
    find_by formats one "email" (str "ann@example.com")
    ≡ filter (has_key formats "email" (index_key formats (str "ann@example.com"))) (all_records one)
find_by_indexed_example =
    find_by_indexed formats one "email" (str "ann@example.com") one-IsValid
      (some_there (lookup "email" one.indexes) email_index).1

str-ne-nil : (t : String) → str t ≢ nil
str-ne-nil t e = cc

one_with_email : All (HasField formats "email") (all_records one)
unfolding insert insert_at new_collection chosen_id own_id get_field set_field stamped
    without_existing default_created lookup put sort clone_record numeric_id all_records copy_at
one_with_email = ((str "ann@example.com", refl, str-ne-nil "ann@example.com"), tt)

find_by-eq-scanned_records_example :
    find_by formats one "email" (str "ann@example.com")
    ≡ scanned_records formats "email" (index_key formats (str "ann@example.com")) (all_records one)
find_by-eq-scanned_records_example =
    find_by-eq-scanned_records formats one "email" (str "ann@example.com") one-IsValid
      one_with_email

get-insert_example : get formats (insert formats "t1" empty ann).0 (pos 1) ≡ (
    if pos 1 == chosen_id formats empty ann
    then some (insert formats "t1" empty ann).1
    else get formats empty (pos 1))
get-insert_example = get-insert formats "t1" empty ann (pos 1)

abbrev email : String
email = "email"

get_field-insert_example : get_field email (insert formats "t1" empty bob).1 ≡ (
    if email == "updated_at"
    then some (str "t1")
    else if email == "id"
    then some (int (chosen_id formats empty bob))
    else if email == "created_at"
    then (if is_some (get_field email bob) then get_field email bob else some (str "t1"))
    else get_field email bob)
get_field-insert_example = get_field-insert formats "t1" empty bob email

one_stored : is_some (lookup (pos 1) one.items) ≡ true
unfolding insert insert_at new_collection chosen_id own_id get_field numeric_id lookup put
    clone_record
one_stored = refl

abbrev stored_ann : Fields
stored_ann = (some_there (lookup (pos 1) one.items) one_stored).0

get-update_example :
    (d : Collection) × (out : Fields) × (update formats "t2" one (pos 1) bob ≡ some (d, out))
    × (get formats d (pos 1) ≡ (if pos 1 == pos 1 then some out else get formats one (pos 1)))
    × ((k : String)
        → get_field k out ≡ (
            if k == "updated_at"
            then some (str "t2")
            else if k == "id"
            then get_field "id" stored_ann
            else elim (get_field k bob) [ none ↦ get_field k stored_ann | some v ↦ some v ]))
get-update_example =
    get-update formats "t2" one (pos 1) (pos 1) bob stored_ann
      (some_there (lookup (pos 1) one.items) one_stored).1

get-delete_example :
    (get formats (delete formats one (pos 1)).0 (pos 1)
      ≡ (if pos 1 == pos 1 then none else get formats one (pos 1)))
    × ((delete formats one (pos 1)).1 ≡ is_some (get formats one (pos 1)))
get-delete_example = get-delete formats one (pos 1) (pos 1)

insert-IsFresh_example : IsFresh (insert formats "t1" empty ann).0
insert-IsFresh_example = insert-IsFresh formats "t1" empty ann empty-IsFresh first_id

no_own_id : own_id formats ann ≡ none
unfolding own_id get_field numeric_id
no_own_id = refl

insert_new_example :
    (lookup (chosen_id formats empty ann) empty.items ≡ none)
    × (count (insert formats "t1" empty ann).0 ≡ count empty + 1)
insert_new_example = insert_new formats "t1" empty ann empty-IsFresh no_own_id

normalize_fields-IsSorted_example : IsSorted (normalize_fields ("name" ∷ "email" ∷ []))
normalize_fields-IsSorted_example = normalize_fields-IsSorted ("name" ∷ "email" ∷ [])

abbrev two_records : CollectionSnapshot
two_records = record { items = bob ∷ []; auto_id = pos 1; index_fields = by_email }

abbrev reloaded : Result RestoreError Collection
reloaded = restore formats empty two_records

abbrev is_ok : {A : Type 0} → Result RestoreError A → Bool
is_ok (ok a) = true
is_ok (err e) = false

ok_there : {A : Type 0} (r : Result RestoreError A) → is_ok r ≡ true → (a : A) × (r ≡ ok a)
ok_there (ok a) h = (a, refl)
ok_there (err e) h = cc

reloaded_ok : is_ok reloaded ≡ true
unfolding restore checked_items own_id get_field numeric_id contains
reloaded_ok = refl

restore-IsValid_example : IsValid formats (ok_there reloaded reloaded_ok).0
restore-IsValid_example =
    restore-IsValid formats empty (ok_there reloaded reloaded_ok).0 two_records empty-IsValid
      (ok_there reloaded reloaded_ok).1

abbrev shared : Database
shared = placed "users" (normalize_fields by_email) new_database

asked : collection "users" by_email new_database ≡ ok (0, shared)
unfolding collection new_database lookup
asked = refl

collection_again_example : collection "users" by_email shared ≡ ok (0, shared)
collection_again_example = collection_again "users" by_email new_database shared 0 asked

users_there : lookup "users" shared.collections ≡ some 0
unfolding placed new_database put lookup
users_there = refl

reset-empties_example :
    (lookup "users" (reset shared).collections ≡ some 0)
    × ((at 0 (reset shared).heap).items ≡ [])
    × ((key : String) → get_data key (reset shared) ≡ none)
reset-empties_example = reset-empties shared "users" 0 users_there
