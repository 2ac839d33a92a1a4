-- ===== src/Store/Collection/Access.antt =====
-- What `Get` reads after each method, and what a stored record holds.
use emulate.Prelude.{◌≡◌, none, some, String, string_eq, ◌==◌, if◌then◌else◌, arith}
use emulate.Prelude.Int.{ℤ, int_eq, int_beq_iff}
use emulate.Prelude.Assoc.{lookup, lookup-put, lookup-erase, is_some}
use text.Mathlib.TextEquality.{eq_iff}
use emulate.Store.Value.{
  Fields, Formats, str, int, get_field, set_field, clone_record, patch_record,
}
use emulate.Store.Value.Laws.{get_field-set_field, get_field-patch_record, clone_record-eq}
use emulate.Store.Collection.{
  Collection, chosen_id, stamped, default_created, insert, insert_at, get, delete, apply_patch,
  update,
}
use emulate.Store.Collection.Fresh.{insert-eq}

module _ (go : Formats) where
  -- After an `Insert`, `Get` of its id gives the record that `Insert` returned, and `Get` of any
  -- other id gives what it gave before.
  pub get-insert :
      (now : String) (c : Collection) (item : Fields) (id : ℤ)
      → get go (insert go now c item).0 id
        ≡ (if id == chosen_id go c item then some (insert go now c item).1 else get go c id)
  unfolding insert_at get
  get-insert now c item id = rw (insert-eq go now c item) (
      ground (
        arith,
        lookup-put (chosen_id go c item) id (stamped now (chosen_id go c item) item) c.items,
      ))

  -- The record that `Insert` returns has the chosen id, the time of the call as `updated_at`, the
  -- record's own `created_at` or else the time of the call, and the record's other fields.
  pub get_field-insert :
      (now : String) (c : Collection) (item : Fields) (k : String)
      → get_field k (insert go now c item).1 ≡ (
          if k == "updated_at"
          then some (str now)
          else if k == "id"
          then some (int (chosen_id go c item))
          else if k == "created_at"
          then (if is_some (get_field k item) then get_field k item else some (str now))
          else get_field k item)
  unfolding insert_at stamped default_created
  get_field-insert now c item k =
      let id = chosen_id go c item in
      let named = set_field "id" (int id) item in
      rw (insert-eq go now c item) (
        ground (
          arith,
          clone_record-eq (stamped now id item),
          get_field-set_field "updated_at" k (str now) (default_created now named),
          get_field-set_field "created_at" k (str now) named,
          get_field-set_field "id" k (int id) item,
          get_field-set_field "id" "created_at" (int id) item,
          eq_iff k "created_at",
          eq_iff k "id",
        ))

  -- `Update` of a stored record keeps its id, takes every other field of the patch, sets
  -- `updated_at` to the time of the call and keeps the fields that the patch does not name. `Get`
  -- then gives the record that `Update` returned, and other ids keep theirs.
  pub get-update :
      (now : String) (c : Collection) (id j : ℤ) (patch existing : Fields)
      → lookup id c.items ≡ some existing
      → (d : Collection) × (out : Fields) × (update go now c id patch ≡ some (d, out))
        × (get go d j ≡ (if j == id then some out else get go c j))
        × ((k : String)
            → get_field k out ≡ (
                if k == "updated_at"
                then some (str now)
                else if k == "id"
                then get_field "id" existing
                else elim (get_field k patch) [ none ↦ get_field k existing | some v ↦ some v ]))
  unfolding update apply_patch get
  get-update now c id j patch existing stored =
      let base = patch_record existing patch in
      (
        (apply_patch go now c id existing patch).0,
        (apply_patch go now c id existing patch).1,
        rw (stored, update),
        ground (
          arith,
          lookup-put id j
              (set_field "updated_at" (str now) (patch_record (clone_record existing) patch))
              c.items,
        ),
        λ k. ground (
          arith,
          clone_record-eq existing,
          clone_record-eq (set_field "updated_at" (str now) base),
          get_field-set_field "updated_at" k (str now) base,
          get_field-patch_record k existing patch,
          eq_iff k "id",
        ),
      )

  -- `Delete` says whether the id was in use; afterwards it is not, and other ids keep theirs.
  pub get-delete :
      (c : Collection) (id j : ℤ)
      → (get go (delete go c id).0 j ≡ (if j == id then none else get go c j))
        × ((delete go c id).1 ≡ is_some (get go c id))
  unfolding delete get
  get-delete c id j = ground (arith, lookup-erase id j c.items, int_beq_iff j id)
