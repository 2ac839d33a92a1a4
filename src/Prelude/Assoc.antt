-- ===== src/Prelude/Assoc.antt =====
-- Go maps as lists of entries, whose order stands for the order in which `range` meets them.
use emulate.Prelude.Tests.{Eq, ◌==◌, if◌then◌else◌, Bool-cases}
use emulate.Prelude.Lists.{contains, length}
use emulate.Prelude.Sort.{IsDistinct}
use Prim.Native.Nat.{suc}
use mathlib.Core.Path.{◌≡◌, refl}
use mathlib.Core.Logic.{inl, inr}
use mathlib.Core.Bool.{Bool, true, false}
use mathlib.Core.Option
use mathlib.Core.Option.{Option, none, some}
use mathlib.Core.List.{List, [], ◌∷◌}
use native.Mathlib.Omega.{arith}

abbrev pub Assoc {ℓ κ} : Type ℓ → Type κ → Type (ℓ ⊔ κ)
Assoc K V = List (K × V)

abbrev pub is_some {ℓ} : {A : Type ℓ} → Option A → Bool
is_some none = false
is_some (some a) = true

module _ {ℓ κ} {K : Type ℓ} {V : Type κ} where
  abbrev pub keys : Assoc K V → List K
  keys [] = []
  keys ((k, v) ∷ m) = k ∷ keys m

  -- A new value for each entry.
  unfoldable pub map_values : (K → V → V) → Assoc K V → Assoc K V
  map_values f [] = []
  map_values f ((k, v) ∷ m) = (k, f k v) ∷ map_values f m

  pub keys-map_values : (f : K → V → V) (m : Assoc K V) → keys (map_values f m) ≡ keys m
  unfolding map_values
  keys-map_values f [] = refl
  keys-map_values f ((k, v) ∷ m) = rw (keys-map_values f m)

module _ {ℓ κ} {K : Type ℓ} {V : Type κ} ⦃e : Eq K⦄ where
  -- m[k]
  unfoldable pub lookup : K → Assoc K V → Option V
  lookup k [] = none
  lookup k ((j, v) ∷ m) = if k == j then some v else lookup k m

  -- m[k] = v
  unfoldable pub put : K → V → Assoc K V → Assoc K V
  put k v [] = (k, v) ∷ []
  put k v ((j, w) ∷ m) = if k == j then (j, v) ∷ m else (j, w) ∷ put k v m

  -- delete(m, k)
  unfoldable pub erase : K → Assoc K V → Assoc K V
  erase k [] = []
  erase k ((j, w) ∷ m) = let rest = erase k m in if k == j then rest else (j, w) ∷ rest

  pub lookup-put :
      (k j : K) (v : V) (m : Assoc K V)
      → lookup j (put k v m) ≡ (if j == k then some v else lookup j m)
  unfolding lookup put
  lookup-put k j v [] = refl
  lookup-put k j v ((i, w) ∷ m) =
      ground (arith, lookup-put k j v m, e.beq_iff k i, e.beq_iff j k, e.beq_iff j i)

  pub lookup-erase :
      (k j : K) (m : Assoc K V) → lookup j (erase k m) ≡ (if j == k then none else lookup j m)
  unfolding lookup erase
  lookup-erase k j [] = ground arith
  lookup-erase k j ((i, w) ∷ m) =
      ground (arith, lookup-erase k j m, e.beq_iff k i, e.beq_iff j k, e.beq_iff j i)

  pub lookup-map_values :
      (f : K → V → V) (k : K) (m : Assoc K V)
      → lookup k (map_values f m) ≡ Option.map (f k) (lookup k m)
  unfolding lookup map_values
  lookup-map_values f k [] = refl
  lookup-map_values f k ((i, w) ∷ m) = elim (Bool-cases (k == i)) [
    | inl same ↦ rw (same, (e.beq_iff k i).0 same)
    | inr other ↦ rw other (lookup-map_values f k m)
  ]

  pub length-put :
      (k : K) (v : V) (m : Assoc K V)
      → length (put k v m) ≡ (if is_some (lookup k m) then length m else suc (length m))
  unfolding lookup put
  length-put k v [] = refl
  length-put k v ((i, w) ∷ m) = ground (arith, length-put k v m)

  pub is_some-lookup-map_values :
      (f : K → V → V) (k : K) (m : Assoc K V)
      → is_some (lookup k (map_values f m)) ≡ is_some (lookup k m)
  unfolding lookup map_values
  is_some-lookup-map_values f k [] = refl
  is_some-lookup-map_values f k ((i, w) ∷ m) = ground (arith, is_some-lookup-map_values f k m)

  pub contains-keys : (k : K) (m : Assoc K V) → contains k (keys m) ≡ is_some (lookup k m)
  unfolding contains lookup
  contains-keys k [] = refl
  contains-keys k ((i, w) ∷ m) = ground (arith, contains-keys k m)

  contains-keys-put :
      (k i : K) (v : V) (m : Assoc K V)
      → (k == i) ≡ false
      → contains i (keys m) ≡ false
      → contains i (keys (put k v m)) ≡ false
  contains-keys-put k i v m other h =
      rw contains-keys
        (ground (arith, lookup-put k i v m, contains-keys i m, e.beq_iff i k, e.beq_iff k i))

  contains-keys-erase :
      (k i : K) (m : Assoc K V)
      → contains i (keys m) ≡ false
      → contains i (keys (erase k m)) ≡ false
  contains-keys-erase k i m h =
      rw contains-keys (ground (arith, lookup-erase k i m, contains-keys i m))

  pub put-IsDistinct :
      (k : K) (v : V) (m : Assoc K V) → IsDistinct (keys m) → IsDistinct (keys (put k v m))
  unfolding put contains
  put-IsDistinct k v [] h = (refl, tt)
  put-IsDistinct k v ((i, w) ∷ m) (h, d) = elim (Bool-cases (k == i)) [
    | inl same ↦ rw same (h, d)
    | inr other ↦ rw other (contains-keys-put k i v m other h, put-IsDistinct k v m d)
  ]

  pub erase-IsDistinct :
      (k : K) (m : Assoc K V) → IsDistinct (keys m) → IsDistinct (keys (erase k m))
  unfolding erase
  erase-IsDistinct k [] h = tt
  erase-IsDistinct k ((i, w) ∷ m) (h, d) = elim (Bool-cases (k == i)) [
    | inl same ↦ rw same (erase-IsDistinct k m d)
    | inr other ↦ rw other (contains-keys-erase k i m h, erase-IsDistinct k m d)
  ]
