-- ===== src/Store/Fields/Laws.antt =====
-- The normal form of a list of index fields, and the comparison of two.
use emulate.Prelude.{
  ◌≡◌, refl, sym, ◌∙◌, ◌↔◌, true, not, List, [], ◌∷◌, ◌&&◌, String, string_eq, ◌==◌, contains,
  arith,
}
use emulate.Prelude.Text.{text_order}
use emulate.Prelude.Sort.{IsDistinct, IsSorted, contains-sort, sort-IsSorted, eq_of_IsSorted}
use text.Mathlib.TextEquality.{eq_iff}
use emulate.Store.Fields.{kept_fields, normalize_fields, same_strings}

contains-kept_fields :
    (name : String) (seen names : List String)
    → contains name (kept_fields seen names)
      ≡ (contains name names && (not (contains name seen) && not (name == "")))
unfolding contains kept_fields
contains-kept_fields name seen [] = refl
contains-kept_fields name seen (n ∷ names) = ground (
  arith,
  contains-kept_fields name seen names,
  contains-kept_fields name (n ∷ seen) names,
  eq_iff name n,
  eq_iff n "",
  eq_iff name "",
)

kept_fields-IsDistinct : (seen names : List String) → IsDistinct (kept_fields seen names)
unfolding contains kept_fields
kept_fields-IsDistinct seen [] = tt
kept_fields-IsDistinct seen (n ∷ names) = ground (
  arith,
  kept_fields-IsDistinct seen names,
  kept_fields-IsDistinct (n ∷ seen) names,
  contains-kept_fields n (n ∷ seen) names,
  eq_iff n n,
)

-- The normal form is strictly ascending.
pub normalize_fields-IsSorted : (names : List String) → IsSorted (normalize_fields names)
unfolding normalize_fields
normalize_fields-IsSorted names =
    sort-IsSorted (kept_fields [] names) (kept_fields-IsDistinct [] names)

-- The normal form of a list of index fields has the fields of the list but the empty one.
contains-normalize_fields :
    (name : String) (names : List String)
    → contains name (normalize_fields names) ≡ (contains name names && not (name == ""))
unfolding normalize_fields contains
contains-normalize_fields name names =
    contains-sort name (kept_fields [] names) ∙ ground (arith, contains-kept_fields name [] names)

-- Two lists with the same fields have one normal form.
pub normalize_fields-ext :
    (xs ys : List String)
    → ((name : String)
        → (contains name xs && not (name == "")) ≡ (contains name ys && not (name == "")))
    → normalize_fields xs ≡ normalize_fields ys
normalize_fields-ext xs ys h =
    eq_of_IsSorted (normalize_fields xs) (normalize_fields ys) (normalize_fields-IsSorted xs)
      (normalize_fields-IsSorted ys)
      (λ name. contains-normalize_fields name xs ∙ h name ∙ sym (contains-normalize_fields name ys))

-- The normal form of a list of index fields is its own normal form.
pub normalize_fields_idem :
    (names : List String) → normalize_fields (normalize_fields names) ≡ normalize_fields names
normalize_fields_idem names =
    normalize_fields-ext (normalize_fields names) names
      (λ name. ground (arith, contains-normalize_fields name names))

pub same_strings_iff : (xs ys : List String) → (same_strings xs ys ≡ true) ↔ (xs ≡ ys)
unfolding same_strings
same_strings_iff [] [] = ground arith
same_strings_iff [] (y ∷ ys) = ground arith
same_strings_iff (x ∷ xs) [] = ground arith
same_strings_iff (x ∷ xs) (y ∷ ys) = ground (arith, same_strings_iff xs ys, eq_iff x y)
