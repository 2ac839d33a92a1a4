-- ===== src/Store/Collection/Fresh.antt =====
-- Automatic ids: while no id reaches the largest `int`, the next one is new.
use emulate.Prelude.{
  ◌≡◌, ◌≢◌, ap, inl, inr, none, some, false, true, String, string_eq, arith, Option-cases,
  Bool-cases, ◌+◌,
}
use emulate.Prelude.Int.{
  ℤ, pos, negsuc, succ, max_int, int_eq, int_less, int_beq_iff, int_less_irrefl, int_less_trans,
}
use emulate.Prelude.Assoc.{lookup, lookup-put, length-put}
use emulate.Store.Value.{Fields, Formats}
use emulate.Store.Value.Laws.{clone_record-eq}
use emulate.Store.Collection.{
  Collection, is_positive, bump, own_id, chosen_id, insert, insert_at, stamped, count,
}

-- Every id is positive and below the next automatic id, which is positive.
pub record IsFresh (c : Collection) : Type 0 where
  pub positive : is_positive c.auto_id ≡ true
  pub ids :
      (id : ℤ) (item : Fields)
      → lookup id c.items ≡ some item
      → (is_positive id ≡ true) × (int_less id c.auto_id ≡ true)

module _ (go : Formats) where
  succ-less : (id : ℤ) → is_positive id ≡ true → id ≢ pos max_int → int_less id (succ id) ≡ true
  unfolding succ
  succ-less (pos n) p h = let other : n ≢ max_int = λ e. h (ap pos e) in ground arith
  succ-less (negsuc n) p h = cc

  succ-is_positive :
      (id : ℤ) → is_positive id ≡ true → id ≢ pos max_int → is_positive (succ id) ≡ true
  unfolding succ
  succ-is_positive (pos n) p h = let other : n ≢ max_int = λ e. h (ap pos e) in ground arith
  succ-is_positive (negsuc n) p h = cc

  less_of_less_of_not_less :
      (a b c : ℤ) → int_less a b ≡ true → int_less c b ≡ false → int_less a c ≡ true
  less_of_less_of_not_less (pos a) (pos b) (pos c) h k = ground arith
  less_of_less_of_not_less (negsuc a) (negsuc b) (negsuc c) h k = ground arith
  less_of_less_of_not_less _ _ _ h k = ground arith

  own_id-is_positive : (item : Fields) (id : ℤ) → own_id go item ≡ some id → is_positive id ≡ true
  unfolding own_id
  own_id-is_positive item id h = ground arith

  bump-bounds :
      (id auto : ℤ)
      → is_positive id ≡ true
      → is_positive auto ≡ true
      → id ≢ pos max_int
      → (is_positive (bump id auto) ≡ true)
        × (int_less id (bump id auto) ≡ true)
        × ((j : ℤ) → int_less j auto ≡ true → int_less j (bump id auto) ≡ true)
  unfolding bump
  bump-bounds id auto p q h = elim (Bool-cases (int_less id auto)) [
    | inl less ↦ rw less (q, less, λ j k. k)
    | inr more ↦ rw more (
      succ-is_positive id p h,
      succ-less id p h,
      λ j k.
          int_less_trans j id (succ id) (less_of_less_of_not_less j auto id k more)
            (succ-less id p h),
    )
  ]

  chosen_id-is_positive :
      (c : Collection) (item : Fields) → IsFresh c → is_positive (chosen_id go c item) ≡ true
  unfolding chosen_id
  chosen_id-is_positive c item f = elim (Option-cases (own_id go item)) [
    | inl none_own ↦ rw (none_own, chosen_id) f.positive
    | inr (id, own) ↦ rw (own, chosen_id) (own_id-is_positive item id own)
  ]

  -- `Insert` copies the record first, and a copy has its entries.
  pub insert-eq :
      (now : String) (c : Collection) (item : Fields)
      → insert go now c item ≡ insert_at go now c (chosen_id go c item) item
  unfolding insert
  insert-eq now c item = rw (clone_record-eq item)

  -- `Insert` keeps a collection fresh: ids and the next automatic id are positive, and each id is
  -- below that one, unless the record is stored under the largest `int`.
  pub insert-IsFresh :
      (now : String) (c : Collection) (item : Fields)
      → IsFresh c
      → chosen_id go c item ≢ pos max_int
      → IsFresh (insert go now c item).0
  unfolding insert_at
  insert-IsFresh now c item f h =
      let id = chosen_id go c item in
      let (positive, less, later) =
        bump-bounds id c.auto_id (chosen_id-is_positive c item f) f.positive h in
      rw (insert-eq now c item) (record {
        positive = positive;
        ids = λ j other found. ground (
          arith,
          lookup-put id j (stamped now id item) c.items,
          f.ids j other,
          later j,
          chosen_id-is_positive c item f,
          int_beq_iff j id,
        );
      })

  absent_chosen_id :
      (c : Collection) (item : Fields)
      → IsFresh c
      → own_id go item ≡ none
      → lookup (chosen_id go c item) c.items ≡ none
  unfolding chosen_id
  absent_chosen_id c item f h = elim (Option-cases (lookup c.auto_id c.items)) [
    | inl absent ↦ rw (h, chosen_id) absent
    | inr (old, stored) ↦ cc ((f.ids c.auto_id old stored).1, int_less_irrefl c.auto_id)
  ]

  -- An `Insert` into a fresh collection of a record without an id of its own replaces nothing:
  -- its id is new, and there is one record more.
  pub insert_new :
      (now : String) (c : Collection) (item : Fields)
      → IsFresh c
      → own_id go item ≡ none
      → (lookup (chosen_id go c item) c.items ≡ none)
        × (count (insert go now c item).0 ≡ count c + 1)
  unfolding insert_at count
  insert_new now c item f h =
      let id = chosen_id go c item in
      let absent = absent_chosen_id c item f h in
      (
        absent,
        rw (insert-eq now c item)
            (ground (arith, length-put id (stamped now id item) c.items, absent)),
      )
