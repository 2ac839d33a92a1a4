-- ===== src/Store/Index/Laws.antt =====
-- What one index holds after an id is filed or taken out.
use emulate.Prelude.{
  ◌≡◌, refl, ◌∙◌, ◌≢◌, inl, inr, Option, none, some, Bool, false, not, ◌&&◌, ◌||◌, List, [], ◌∷◌,
  String, string_eq, ◌==◌, if◌then◌else◌, contains, arith, Bool-cases,
}
use emulate.Prelude.Int.{ℤ, int_eq, int_beq_iff}
use emulate.Prelude.Assoc.{lookup, put, lookup-put, lookup-erase}
use emulate.Prelude.Sort.{IsDistinct}
use text.Mathlib.TextEquality.{eq_iff}
use emulate.Store.Index.{Index, bucket, add_id, remove_id, file, put_bucket, unfile}

-- The index has the id under the key.
abbrev pub holds : String → ℤ → Index → Bool
holds key id index = contains id (bucket key index)

-- The ids under each key are those that `R` relates to it, none twice, and no key is left empty.
pub record Represents (index : Index) (R : String → ℤ → Bool) : Type 0 where
  pub agrees : (key : String) (id : ℤ) → holds key id index ≡ R key id
  pub distinct : (key : String) → IsDistinct (bucket key index)
  pub filled : (key : String) → lookup key index ≢ some []

pub Represents-ext :
    {index : Index} {R S : String → ℤ → Bool}
    → Represents index R
    → ((key : String) (id : ℤ) → R key id ≡ S key id)
    → Represents index S
Represents-ext r h = record {
  agrees = λ key id. r.agrees key id ∙ h key id;
  distinct = r.distinct;
  filled = r.filled;
}

pub Represents-empty : Represents [] (λ key id. false)
unfolding bucket lookup contains
Represents-empty = record { agrees = λ key id. refl; distinct = λ key. tt; filled = λ key h. cc }

contains-remove_id :
    (i id : ℤ) (ids : List ℤ) → contains i (remove_id id ids) ≡ (contains i ids && not (i == id))
unfolding contains remove_id
contains-remove_id i id [] = refl
contains-remove_id i id (j ∷ ids) =
    ground (arith, contains-remove_id i id ids, int_beq_iff id j, int_beq_iff i j, int_beq_iff i id)

remove_id-IsDistinct : (id : ℤ) (ids : List ℤ) → IsDistinct ids → IsDistinct (remove_id id ids)
unfolding remove_id
remove_id-IsDistinct id [] h = tt
remove_id-IsDistinct id (j ∷ ids) (h, d) =
    ground (arith, contains-remove_id j id ids, remove_id-IsDistinct id ids d)

bucket-put :
    (key k : String) (ids : List ℤ) (index : Index)
    → bucket k (put key ids index) ≡ (if k == key then ids else bucket k index)
unfolding bucket
bucket-put key k ids index = ground (arith, lookup-put key k ids index)

bucket-put_bucket :
    (key k : String) (ids : List ℤ) (index : Index)
    → bucket k (put_bucket key ids index) ≡ (if k == key then ids else bucket k index)
unfolding bucket put_bucket
bucket-put_bucket key k [] index = ground (arith, lookup-erase key k index)
bucket-put_bucket key k (id ∷ ids) index = ground (arith, lookup-put key k (id ∷ ids) index)

-- The record is filed under this key.
abbrev pub matches_key : Option String → String → Bool
matches_key none key = false
matches_key (some k) key = key == k

contains-add_id :
    (i id : ℤ) (ids : List ℤ) → contains i (add_id id ids) ≡ (i == id || contains i ids)
unfolding contains add_id
contains-add_id i id ids = ground (arith, int_beq_iff i id)

add_id-IsDistinct : (id : ℤ) (ids : List ℤ) → IsDistinct ids → IsDistinct (add_id id ids)
unfolding add_id
add_id-IsDistinct id ids d = ground arith

-- What is left of a bucket that is put back.
lookup-put_bucket-ne :
    (key k : String) (ids : List ℤ) (index : Index)
    → lookup k index ≢ some []
    → lookup k (put_bucket key ids index) ≢ some []
unfolding put_bucket
lookup-put_bucket-ne key k [] index h = ground (arith, lookup-erase key k index)
lookup-put_bucket-ne key k (id ∷ ids) index h = ground (arith, lookup-put key k (id ∷ ids) index)

add_id-ne-nil : (id : ℤ) (ids : List ℤ) → add_id id ids ≢ []
unfolding add_id contains
add_id-ne-nil id [] h = ground arith
add_id-ne-nil id (j ∷ ids) h = ground arith

module _ (id : ℤ) {index : Index} {R : String → ℤ → Bool} (r : Represents index R) where
  -- After a file, the id is under its key too, and nothing else has changed.
  pub file-Represents :
      (filed : Option String)
      → Represents (file id filed index) (λ key i. i == id && matches_key filed key || R key i)
  unfolding file
  file-Represents none = record {
    agrees = λ key i. ground (arith, r.agrees key i);
    distinct = r.distinct;
    filled = r.filled;
  }
  file-Represents (some key) =
      let ids = add_id id (bucket key index) in
      record {
        agrees = λ k i.
            rw bucket-put
              (ground (arith, contains-add_id i id (bucket key index), r.agrees k i, eq_iff k key));
        distinct = λ k. rw bucket-put (elim (Bool-cases (k == key)) [
          | inl same ↦ rw same (add_id-IsDistinct id (bucket key index) (r.distinct key))
          | inr other ↦ rw other (r.distinct k)
        ]);
        filled = λ k.
            ground
              (arith, lookup-put key k ids index, r.filled k, add_id-ne-nil id (bucket key index));
      }

  -- After an unfile, the id is no longer under its key, and nothing else has changed.
  pub unfile-Represents :
      (filed : Option String)
      → Represents
          (unfile id filed index)
          (λ key i. R key i && not (i == id && matches_key filed key))
  unfolding unfile
  unfile-Represents none = record {
    agrees = λ key i. ground (arith, r.agrees key i);
    distinct = r.distinct;
    filled = r.filled;
  }
  unfile-Represents (some key) =
      let ids = remove_id id (bucket key index) in
      record {
        agrees = λ k i. rw bucket-put_bucket (
            ground (arith, contains-remove_id i id (bucket key index), r.agrees k i, eq_iff k key));
        distinct = λ k. rw bucket-put_bucket (elim (Bool-cases (k == key)) [
          | inl same ↦ rw same (remove_id-IsDistinct id (bucket key index) (r.distinct key))
          | inr other ↦ rw other (r.distinct k)
        ]);
        filled = λ k. lookup-put_bucket-ne key k ids index (r.filled k);
      }
