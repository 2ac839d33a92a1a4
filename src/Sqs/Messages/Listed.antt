-- ===== src/Sqs/Messages/Listed.antt =====
-- The messages that FindBy gives in internal/services/aws/sqs/handler.go: each is stored under its
-- own id, and no two have the same.
use emulate.Prelude.{
  ◌≡◌, refl, sym, ◌∙◌, inl, inr, ap₂, Eq, Bool, true, false, some, List, [], ◌∷◌, map, filter,
  contains, All, arith, Option-cases, Bool-cases, String, string_eq,
}
use emulate.Prelude.Int.{ℤ, int_eq, int_order}
use emulate.Prelude.Assoc.{lookup, keys, is_some, contains-keys}
use emulate.Prelude.Sort.{
  IsDistinct, All-of_contains, sort, sort-IsSorted, IsSorted-IsDistinct, contains-sort,
}
use emulate.Store.Value.{Fields, Formats, str, index_key}
use emulate.Store.Value.Laws.{clone_record-eq}
use emulate.Store.Collection.{Collection, copy_at, all_records}
use emulate.Store.Collection.Find.{has_key, find_by_indexed}
use emulate.Store.Collection.Mirror.{Records}
use emulate.Store.Collection.Invariant.{IsValid}
use emulate.Sqs.Fields.{Platform, int_field, int_value, string_field}
use emulate.Sqs.State.{Env, State}
use emulate.Sqs.Messages.{messages_of}

module _ {A B : Type 0} ⦃e : Eq B⦄ where
  contains-map-filter :
      (f : A → B) (p : A → Bool) (b : B) (l : List A)
      → contains b (map f l) ≡ false
      → contains b (map f (filter p l)) ≡ false
  unfolding contains filter
  contains-map-filter f p b [] h = refl
  contains-map-filter f p b (a ∷ l) h = ground (arith, contains-map-filter f p b l)

  map-filter-IsDistinct :
      (f : A → B) (p : A → Bool) (l : List A)
      → IsDistinct (map f l)
      → IsDistinct (map f (filter p l))
  unfolding filter
  map-filter-IsDistinct f p [] h = tt
  map-filter-IsDistinct f p (a ∷ l) (fresh, h) = elim (Bool-cases (p a)) [
    | inl kept ↦
        rw (kept, filter) (contains-map-filter f p (f a) l fresh, map-filter-IsDistinct f p l h)
    | inr dropped ↦ rw (dropped, filter) (map-filter-IsDistinct f p l h)
  ]

All-filter {ℓ κ} :
    {A : Type ℓ} (P : A → Type κ) (p : A → Bool) (l : List A) → All P l → All P (filter p l)
unfolding filter
All-filter P p [] h = tt
All-filter P p (a ∷ l) (here, there) = elim (Bool-cases (p a)) [
  | inl kept ↦ rw (kept, filter) (here, All-filter P p l there)
  | inr dropped ↦ rw (dropped, filter) (All-filter P p l there)
]

-- The id that the handler reads from a record.
abbrev pub id_of : Platform → Fields → ℤ
id_of go message = int_field go message "id"

-- The messages are stored under their ids, of which no two are the same.
abbrev pub Listing : Platform → Records → List Fields → Type 0
Listing go items messages =
    All (λ message. lookup (id_of go message) items ≡ some message) messages
    × IsDistinct (map (id_of go) messages)

module _ (go : Formats) (platform : Platform) where
  pub id_of-copy_at :
      (c : Collection) (id : ℤ)
      → IsValid go c
      → is_some (lookup id c.items) ≡ true
      → (id_of platform (copy_at c.items id) ≡ id) × (lookup id c.items ≡ some (copy_at c.items id))
  unfolding copy_at int_field int_value
  id_of-copy_at c id v stored = elim (Option-cases (lookup id c.items)) [
    | inl absent ↦ cc
    | inr (item, found) ↦ ground (arith, clone_record-eq item, v.named id item found)
  ]

  copies-stored :
      (c : Collection) (ids : List ℤ)
      → IsValid go c
      → All (λ id. is_some (lookup id c.items) ≡ true) ids
      → (map (id_of platform) (map (copy_at c.items) ids) ≡ ids)
        × All
            (λ message. lookup (id_of platform message) c.items ≡ some message)
            (map (copy_at c.items) ids)
  copies-stored c [] v h = (refl, tt)
  copies-stored c (id ∷ ids) v (here, there) =
      let (same, found) = id_of-copy_at c id v here in
      let (sames, founds) = copies-stored c ids v there in
      (ap₂ (λ i l. i ∷ l) same sames, (rw (same) found, founds))

  -- What `All` of a valid collection lists.
  pub all_records-Listing :
      (c : Collection) → IsValid go c → Listing platform c.items (all_records c)
  unfolding all_records
  all_records-Listing c v =
      let ids = sort (keys c.items) in
      let (same, stored) = copies-stored c ids v (
        All-of_contains ids (λ id there.
          sym (contains-keys id c.items) ∙ sym (contains-sort id (keys c.items)) ∙ there)) in
      (stored, rw (same) (IsSorted-IsDistinct ids (sort-IsSorted (keys c.items) v.distinct)))

-- The key of a queue's messages.
abbrev pub queue_key : Env → Fields → String
queue_key env queue = index_key env.formats (str (string_field env.platform queue "queue_name"))

module _ (env : Env) where
  -- On an index the messages of a queue are those filed under its name.
  pub messages_of-eq :
      (queue : Fields) (s : State)
      → IsValid env.formats s.messages
      → contains "queue_name" s.messages.index_fields ≡ true
      → messages_of env queue s
        ≡ filter (has_key env.formats "queue_name" (queue_key env queue)) (all_records s.messages)
  unfolding messages_of
  messages_of-eq queue s v indexed = elim (Option-cases (lookup "queue_name" s.messages.indexes)) [
    | inl absent ↦ let h = v.covered "queue_name" in cc
    | inr (index, found) ↦ find_by_indexed env.formats s.messages "queue_name" _ v found
  ]

  pub messages_of-Listing :
      (queue : Fields) (s : State)
      → IsValid env.formats s.messages
      → contains "queue_name" s.messages.index_fields ≡ true
      → Listing env.platform s.messages.items (messages_of env queue s)
  messages_of-Listing queue s v indexed =
      let p = has_key env.formats "queue_name" (queue_key env queue) in
      let (stored, distinct) = all_records-Listing env.formats env.platform s.messages v in
      rw (messages_of-eq queue s v indexed) (
        All-filter _ p (all_records s.messages) stored,
        map-filter-IsDistinct (id_of env.platform) p (all_records s.messages) distinct,
      )
