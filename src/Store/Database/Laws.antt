-- ===== src/Store/Database/Laws.antt =====
-- Handles, data and what `Reset` keeps.
use emulate.Prelude.{
  ℕ, ◌≡◌, refl, sym, ap, ◌∙◌, inl, inr, true, none, some, List, [], ◌∷◌, ◌&&◌, not, String,
  string_eq, nat_eq, ◌==◌, if◌then◌else◌, arith, eq_refl, Bool-cases, Option-cases,
}
use emulate.Prelude.Result.{ok, ok_inj}
use emulate.Prelude.Assoc.{Assoc, lookup, put, lookup-put}
use emulate.Store.Value.{Value, clone_value}
use emulate.Store.Value.Laws.{clone_value-eq}
use emulate.Store.Fields.{normalize_fields, same_strings}
use emulate.Store.Fields.Laws.{same_strings_iff}
use emulate.Store.Collection.{Collection, new_collection, clear}
use emulate.Store.Database.{
  Database, at, placed, is_nil, collection, set_data, get_data, clear_each, reset,
}

-- What is set under a key is what is read there, and other keys read as before.
get_data-set_data :
    (key j : String) (value : Value) (s : Database)
    → get_data j (set_data key value s) ≡ (if j == key then some value else get_data j s)
unfolding get_data set_data
get_data-set_data key j value s = elim (Bool-cases (j == key)) [
  | inl hit ↦
      rw (lookup-put key j (clone_value value) s.values, get_data)
        (rw hit (rw clone_value-eq (rw clone_value-eq refl)))
  | inr miss ↦ rw (lookup-put key j (clone_value value) s.values, get_data) (rw miss refl)
]

at-put :
    (a b : ℕ) (c : Collection) (heap : Assoc ℕ Collection)
    → at a (put b c heap) ≡ (if a == b then c else at a heap)
unfolding at
at-put a b c heap = elim (Bool-cases (a == b)) [
  | inl hit ↦ rw (lookup-put b a c heap, at) (rw hit refl)
  | inr miss ↦ rw (lookup-put b a c heap, at) (rw miss refl)
]

same_strings_refl : (names : List String) → same_strings names names ≡ true
same_strings_refl names = (same_strings_iff names names).1 refl

placed_again :
    (name : String) (fields : List String) (s : Database)
    → collection name fields (placed name (normalize_fields fields) s)
      ≡ ok (s.next, placed name (normalize_fields fields) s)
unfolding collection placed new_collection
placed_again name fields s =
    let made = new_collection (normalize_fields fields) in
    let found : lookup name (put name s.next s.collections) ≡ some s.next =
      lookup-put name name s.next s.collections ∙ rw (eq_refl name) refl in
    let there : at s.next (put s.next made s.heap) ≡ made =
      at-put s.next s.next made s.heap ∙ rw (eq_refl s.next) refl in
    rw (found, collection)
      (rw (there, collection) (rw (same_strings_refl (normalize_fields fields)) (ground arith)))

-- Whoever asks again for a collection with the same fields gets the same handle, and the store
-- stays as it is.
pub collection_again :
    (name : String) (fields : List String) (s s' : Database) (address : ℕ)
    → collection name fields s ≡ ok (address, s')
    → collection name fields s' ≡ ok (address, s')
unfolding collection
collection_again name fields s s' address e = elim (Option-cases (lookup name s.collections)) [
  | inl absent ↦
      let made : ◌≡◌ {A = ℕ × Database} (s.next, placed name (normalize_fields fields) s)
          (address, s') =
        ok_inj (rw (absent, collection) at e) in
      ap (λ r. collection name fields r.1) (sym made) ∙ placed_again name fields s ∙ ap ok made
  | inr (old, there) ↦
      elim (Bool-cases (
        not (is_nil (normalize_fields fields))
        && not (same_strings (at old s.heap).index_fields (normalize_fields fields)))) [
          | inl other ↦ cc (rw (there, other, collection) at e)
          | inr same ↦
              let kept : ◌≡◌ {A = ℕ × Database} (old, s) (address, s') =
                ok_inj (rw (there, same, collection) at e) in
              ap (λ r. collection name fields r.1) (sym kept) ∙ e
        ]
]

cleared_put :
    (b : ℕ) (heap : Assoc ℕ Collection) (a : ℕ)
    → (at a heap).items ≡ []
    → (at a (put b (clear (at b heap)) heap)).items ≡ []
unfolding clear
cleared_put b heap a h = elim (Bool-cases (a == b)) [
  | inl hit ↦ rw at-put (rw hit refl)
  | inr miss ↦ rw at-put (rw miss h)
]

cleared_put_self :
    (b : ℕ) (heap : Assoc ℕ Collection) → (at b (put b (clear (at b heap)) heap)).items ≡ []
unfolding clear
cleared_put_self b heap = rw at-put (rw ((nat_eq.beq_iff b b).1 refl) refl)

cleared_at :
    (a b : ℕ) (heap : Assoc ℕ Collection)
    → b ≡ a
    → (at a (put b (clear (at b heap)) heap)).items ≡ []
cleared_at a b heap same =
    ap (λ i. (at i (put b (clear (at b heap)) heap)).items) (sym same) ∙ cleared_put_self b heap

cleared_stays :
    (names : Assoc String ℕ) (heap : Assoc ℕ Collection) (a : ℕ)
    → (at a heap).items ≡ []
    → (at a (clear_each names heap)).items ≡ []
unfolding clear_each
cleared_stays [] heap a h = h
cleared_stays ((name, b) ∷ rest) heap a h =
    cleared_stays rest (put b (clear (at b heap)) heap) a (cleared_put b heap a h)

clear_each-items :
    (names : Assoc String ℕ) (heap : Assoc ℕ Collection) (name : String) (a : ℕ)
    → lookup name names ≡ some a
    → (at a (clear_each names heap)).items ≡ []
unfolding clear_each
clear_each-items [] heap name a found = unfold lookup in cc
clear_each-items ((n, b) ∷ rest) heap name a found = elim (Bool-cases (name == n)) [
  | inl hit ↦
      let same : b ≡ a = unfold lookup in cc (rw hit at found) in
      cleared_stays rest (put b (clear (at b heap)) heap) a (cleared_at a b heap same)
  | inr miss ↦
      clear_each-items rest (put b (clear (at b heap)) heap) name a
        (unfold lookup in (rw miss at found))
]

-- After `Reset` every name has the collection that it had, with no records, so a handle from
-- before is still the one for its name; there is no data left.
pub reset-empties :
    (s : Database) (name : String) (address : ℕ)
    → lookup name s.collections ≡ some address
    → (lookup name (reset s).collections ≡ some address)
      × ((at address (reset s).heap).items ≡ [])
      × ((key : String) → get_data key (reset s) ≡ none)
unfolding reset get_data
reset-empties s name address found =
    (found, clear_each-items s.collections s.heap name address found, λ key. unfold lookup in refl)
