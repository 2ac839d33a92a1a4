-- ===== src/Store/Fields.antt =====
-- The lists of index fields in internal/core/store/store.go: `normalizeFields`, `sameStrings`.
pub mod Laws
use emulate.Prelude.{
  Bool, true, false, List, [], ◌∷◌, ◌&&◌, ◌||◌, String, string_eq, ◌==◌, if◌then◌else◌, contains,
  length, eqb,
}
use emulate.Prelude.Text.{text_order}
use emulate.Prelude.Sort.{sort}

-- The loop of `normalizeFields`, with the fields seen so far.
unfoldable pub kept_fields : List String → List String → List String
kept_fields seen [] = []
kept_fields seen (name ∷ names) =
    let skipped = kept_fields seen names in
    let added = name ∷ kept_fields (name ∷ seen) names in
    if name == "" || contains name seen then skipped else added

unfoldable pub normalize_fields : List String → List String
unfolding kept_fields sort
normalize_fields names = sort (kept_fields [] names)

-- The loop of `sameStrings`, on lists of one length.
same_elements : List String → List String → Bool
same_elements [] ys = true
same_elements (x ∷ xs) [] = false
same_elements (x ∷ xs) (y ∷ ys) = x == y && same_elements xs ys

unfoldable pub same_strings : List String → List String → Bool
unfolding same_elements
same_strings xs ys = eqb (length xs) (length ys) && same_elements xs ys
