-- ===== src/Store/Collection/History.antt =====
-- Any sequence of calls on a collection, and what holds after it.
use emulate.Prelude.{◌≡◌, refl, Option, List, [], ◌∷◌, String}
use emulate.Prelude.Int.{ℤ}
use emulate.Prelude.Result.{Result, ok, err}
use emulate.Store.Value.{Fields, Formats}
use emulate.Store.Fields.{normalize_fields}
use emulate.Store.Collection.{
  Collection, insert, update, update_func, delete, clear, new_collection,
}
use emulate.Store.Collection.Invariant.{
  IsValid, changed, insert-IsValid, update-IsValid, update_func-IsValid, delete-IsValid,
  clear-IsValid, new_collection-IsValid,
}
use emulate.Store.Snapshot.{CollectionSnapshot, RestoreError, restore}
use emulate.Store.Snapshot.Loading.{restore-IsValid}

-- A call of a method that may change the collection, with the clock's reading where it takes one.
pub data Call : Type 0 where
  insert_call : String → Fields → Call
  update_call : String → ℤ → Fields → Call
  update_func_call : String → ℤ → Option (Fields → Option Fields) → Call
  delete_call : ℤ → Call
  clear_call : Call
  restore_call : CollectionSnapshot → Call

-- An error of `Restore` comes before it changes anything.
abbrev restored_or : Collection → Result RestoreError Collection → Collection
restored_or c (ok d) = d
restored_or c (err e) = c

module _ (go : Formats) where
  unfoldable pub perform : Collection → Call → Collection
  perform c (insert_call now item) = (insert go now c item).0
  perform c (update_call now id patch) = changed c (update go now c id patch)
  perform c (update_func_call now id fn) = changed c (update_func go now c id fn)
  perform c (delete_call id) = (delete go c id).0
  perform c clear_call = clear c
  perform c (restore_call s) = restored_or c (restore go c s)

  unfoldable pub perform_all : Collection → List Call → Collection
  perform_all c [] = c
  perform_all c (call ∷ calls) = perform_all (perform c call) calls

  restored_or-IsValid :
      (c : Collection) (s : CollectionSnapshot) (r : Result RestoreError Collection)
      → restore go c s ≡ r
      → IsValid go c
      → IsValid go (restored_or c r)
  restored_or-IsValid c s (ok d) h v = restore-IsValid go c d s v h
  restored_or-IsValid c s (err e) h v = v

  perform-IsValid : (c : Collection) (call : Call) → IsValid go c → IsValid go (perform c call)
  unfolding perform
  perform-IsValid c (insert_call now item) v = insert-IsValid go now c item v
  perform-IsValid c (update_call now id patch) v = update-IsValid go now c id patch v
  perform-IsValid c (update_func_call now id fn) v = update_func-IsValid go now c id fn v
  perform-IsValid c (delete_call id) v = delete-IsValid go c id v
  perform-IsValid c clear_call v = clear-IsValid go c v
  perform-IsValid c (restore_call s) v = restored_or-IsValid c s (restore go c s) refl v

  perform_all-IsValid :
      (c : Collection) (calls : List Call) → IsValid go c → IsValid go (perform_all c calls)
  unfolding perform_all
  perform_all-IsValid c [] v = v
  perform_all-IsValid c (call ∷ calls) v =
      perform_all-IsValid (perform c call) calls (perform-IsValid c call v)

  -- From a new collection, whatever the calls and whatever they fail with, ids stay distinct,
  -- every record bears its own id, and each index has exactly the records with its keys.
  pub history-IsValid :
      (names : List String) (calls : List Call)
      → IsValid go (perform_all (new_collection (normalize_fields names)) calls)
  history-IsValid names calls =
      perform_all-IsValid (new_collection (normalize_fields names)) calls
        (new_collection-IsValid go (normalize_fields names))
