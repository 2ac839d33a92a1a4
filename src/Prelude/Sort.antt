-- ===== src/Prelude/Sort.antt =====
-- `sort.Ints` and `sort.Strings`, and the lists that they give: strictly ascending ones, each of
-- which is determined by its elements.
use emulate.Prelude.Tests.{Eq, ◌==◌, if◌then◌else◌, Bool-cases}
use emulate.Prelude.Lists.{contains, filter, All}
use emulate.Prelude.Order.{Order}
use mathlib.Core.Path.{◌≡◌, refl, ap₂}
use mathlib.Core.Logic.{inl, inr}
use mathlib.Core.Bool.{Bool, true, false, ◌&&◌, ◌||◌}
use mathlib.Core.List.{List, [], ◌∷◌}
use native.Mathlib.Omega.{arith}

-- No element stands twice.
abbrev pub IsDistinct {ℓ} : {A : Type ℓ} ⦃e : Eq A⦄ → List A → Type 0
IsDistinct [] = Unit
IsDistinct (x ∷ xs) = (contains x xs ≡ false) × IsDistinct xs

module _ {ℓ} {A : Type ℓ} ⦃o : Order A⦄ where
  abbrev has : A → List A → Bool
  has = contains ⦃e = o.eq⦄

  insert : A → List A → List A
  insert x [] = x ∷ []
  insert x (y ∷ ys) = if o.less x y then x ∷ y ∷ ys else y ∷ insert x ys

  unfoldable pub sort : List A → List A
  unfolding insert
  sort [] = []
  sort (x ∷ xs) = insert x (sort xs)

  abbrev pub Above : A → List A → Type 0
  Above x [] = Unit
  Above x (y ∷ ys) = (o.less x y ≡ true) × Above x ys

  abbrev pub IsSorted : List A → Type 0
  IsSorted [] = Unit
  IsSorted (x ∷ xs) = Above x xs × IsSorted xs

  Above-trans : (x y : A) (l : List A) → o.less x y ≡ true → Above y l → Above x l
  Above-trans x y [] h k = tt
  Above-trans x y (z ∷ l) h (k, ks) = (o.trans x y z h k, Above-trans x y l h ks)

  Above-insert : (x y : A) (l : List A) → o.less x y ≡ true → Above x l → Above x (insert y l)
  unfolding insert
  Above-insert x y [] h k = (h, tt)
  Above-insert x y (z ∷ l) h (k, ks) = ground (arith, Above-insert x y l h ks)

  less_of_not_less : (x y : A) → o.less x y ≡ false → o.eq.beq x y ≡ false → o.less y x ≡ true
  less_of_not_less x y h k = elim (Bool-cases (o.less y x)) [
    | inl less ↦ less
    | inr no_less ↦ cc (k, (o.eq.beq_iff x y).1 (o.total x y h no_less))
  ]

  insert-IsSorted : (x : A) (l : List A) → has x l ≡ false → IsSorted l → IsSorted (insert x l)
  unfolding insert contains
  insert-IsSorted x [] h s = (tt, tt)
  insert-IsSorted x (y ∷ l) h (a, s) = elim (Bool-cases (o.less x y)) [
    | inl less ↦ rw less ((less, Above-trans x y l less a), (a, s))
    | inr more ↦ rw more (
      Above-insert y x l (less_of_not_less x y more (ground arith)) a,
      insert-IsSorted x l (ground arith) s,
    )
  ]

  contains-insert : (a x : A) (l : List A) → has a (insert x l) ≡ (o.eq.beq a x || has a l)
  unfolding insert contains
  contains-insert a x [] = refl
  contains-insert a x (y ∷ l) = ground (arith, contains-insert a x l)

  pub contains-sort : (a : A) (l : List A) → has a (sort l) ≡ has a l
  unfolding sort contains
  contains-sort a [] = refl
  contains-sort a (x ∷ l) = rw (contains-insert a x (sort l), contains-sort a l)

  pub sort-IsSorted : (l : List A) → IsDistinct ⦃e = o.eq⦄ l → IsSorted (sort l)
  unfolding sort
  sort-IsSorted [] h = tt
  sort-IsSorted (x ∷ l) (h, k) =
      insert-IsSorted x (sort l) (rw (contains-sort x l) h) (sort-IsSorted l k)

  contains-Above : (x : A) (l : List A) → Above x l → has x l ≡ false
  unfolding contains
  contains-Above x [] h = refl
  contains-Above x (y ∷ l) (h, k) = elim (Bool-cases (o.eq.beq x y)) [
    | inl same ↦ cc (h, (o.eq.beq_iff x y).0 same, o.irrefl x)
    | inr other ↦ rw other (contains-Above x l k)
  ]

  pub IsSorted-IsDistinct : (l : List A) → IsSorted l → IsDistinct ⦃e = o.eq⦄ l
  IsSorted-IsDistinct [] s = tt
  IsSorted-IsDistinct (x ∷ l) (a, s) = (contains-Above x l a, IsSorted-IsDistinct l s)

  -- Two strictly ascending lists with the same elements are equal.
  pub eq_of_IsSorted :
      (xs ys : List A) → IsSorted xs → IsSorted ys → ((a : A) → has a xs ≡ has a ys) → xs ≡ ys
  unfolding contains
  eq_of_IsSorted [] [] s t h = refl
  eq_of_IsSorted [] (y ∷ ys) s t h = ground (arith, h y, (o.eq.beq_iff y y).1 refl)
  eq_of_IsSorted (x ∷ xs) [] s t h = ground (arith, h x, (o.eq.beq_iff x x).1 refl)
  eq_of_IsSorted (x ∷ xs) (y ∷ ys) (a, s) (b, t) h = ap₂ ◌∷◌ heads (eq_of_IsSorted xs ys s t tails)
    where
      no_less : o.less x y ≡ false
      no_less = elim (Bool-cases (o.less x y)) [
        | inl less ↦ ground (
          arith,
          h x,
          (o.eq.beq_iff x x).1 refl,
          contains-Above x (y ∷ ys) (less, Above-trans x y ys less b),
        )
        | inr less ↦ less
      ]

      no_more : o.less y x ≡ false
      no_more = elim (Bool-cases (o.less y x)) [
        | inl less ↦ ground (
          arith,
          h y,
          (o.eq.beq_iff y y).1 refl,
          contains-Above y (x ∷ xs) (less, Above-trans y x xs less a),
        )
        | inr less ↦ less
      ]

      heads : x ≡ y
      heads = o.total x y no_less no_more

      tails : (c : A) → has c xs ≡ has c ys
      tails c = elim (Bool-cases (o.eq.beq c x)) [
        | inl same ↦
            cc ((o.eq.beq_iff c x).0 same, heads, contains-Above x xs a, contains-Above y ys b)
        | inr other ↦ ground (arith, h c, heads)
      ]

  pub Above-filter : (p : A → Bool) (x : A) (l : List A) → Above x l → Above x (filter p l)
  unfolding filter
  Above-filter p x [] h = tt
  Above-filter p x (y ∷ l) (h, k) = ground (arith, Above-filter p x l k)

  pub filter-IsSorted : (p : A → Bool) (l : List A) → IsSorted l → IsSorted (filter p l)
  unfolding filter
  filter-IsSorted p [] s = tt
  filter-IsSorted p (x ∷ l) (a, s) = ground (arith, Above-filter p x l a, filter-IsSorted p l s)

  insert_of_Above : (x : A) (l : List A) → Above x l → insert x l ≡ x ∷ l
  unfolding insert
  insert_of_Above x [] h = refl
  insert_of_Above x (y ∷ l) (h, k) = rw h

  pub sort_of_IsSorted : (l : List A) → IsSorted l → sort l ≡ l
  unfolding sort
  sort_of_IsSorted [] s = refl
  sort_of_IsSorted (x ∷ l) (a, s) = rw (sort_of_IsSorted l s) (insert_of_Above x l a)

module _ {ℓ} {A : Type ℓ} ⦃e : Eq A⦄ where
  pub contains-filter :
      (p : A → Bool) (a : A) (l : List A) → contains a (filter p l) ≡ (contains a l && p a)
  unfolding contains filter
  contains-filter p a [] = refl
  contains-filter p a (x ∷ l) = elim (Bool-cases (a == x)) [
    | inl same ↦
        let eq : a ≡ x = (e.beq_iff a x).0 same in
        ground (arith, contains-filter p a l, eq, (e.beq_iff x x).1 refl)
    | inr other ↦ ground (arith, contains-filter p a l)
  ]

  pub All-of_contains {κ} :
      {P : A → Type κ} (l : List A) → ((a : A) → contains a l ≡ true → P a) → All P l
  unfolding contains
  All-of_contains [] h = tt
  All-of_contains (x ∷ l) h =
      (h x (rw ((e.beq_iff x x).1 refl)), All-of_contains l (λ a there. h a (ground arith)))
