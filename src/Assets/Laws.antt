-- ===== src/Assets/Laws.antt =====
-- What a reader of the asset store finds after each operation, and that a full snapshot restores
-- every asset.
use emulate.Prelude.{
  ℕ, ◌≡◌, refl, sym, ap, ◌∙◌, inl, inr, true, false, none, some, List, [], ◌∷◌, String, string_eq,
  nat_eq, ◌==◌, if◌then◌else◌, arith, All, contains, length, Bool-cases, Option-cases,
}
use text.Mathlib.TextEquality.{eq_iff}
use emulate.Prelude.Text.{text_order}
use emulate.Prelude.Result.{ok, Result-cases}
use emulate.Prelude.Sort.{
  IsDistinct, All-of_contains, contains-sort, sort-IsSorted, IsSorted-IsDistinct,
}
use emulate.Prelude.Assoc.{
  Assoc, keys, lookup, put, is_some, lookup-put, lookup-erase, contains-keys, put-IsDistinct,
  erase-IsDistinct,
}
use emulate.Assets.{
  Platform, PutOptions, Metadata, FullAssetSnapshot, Asset, Assets, clone_string_map,
  clone_metadata, bytes, delete, sorted_ids, for_each_id, full_asset_snapshot, full_snapshot,
  build_metadata, put_bytes, validate, restore_each, restore_full_snapshot,
}

clone_string_map-eq : (m : Assoc String String) → clone_string_map m ≡ m
unfolding clone_string_map
clone_string_map-eq [] = refl
clone_string_map-eq ((k, v) ∷ m) = ap (λ rest. (k, v) ∷ rest) (clone_string_map-eq m)

module _ {Time : Type 0} where
  clone_metadata-eq : (m : Metadata Time) → clone_metadata m ≡ m
  unfolding clone_metadata
  clone_metadata-eq m =
      ap (λ user. record m { user_metadata = user }) (clone_string_map-eq m.user_metadata)

module _ {Time : Type 0} (go : Platform Time) where
  -- An asset that stands under its own id and that `RestoreFullSnapshot` would accept.
  abbrev pub IsSound : String → Asset Time → Type 0
  IsSound id a =
      (a.metadata.id ≡ id)
      × ((id == "") ≡ false)
      × (validate go (record { metadata = a.metadata; body = a.body }) ≡ none)

  -- Every asset is sound, and no id stands twice in the map.
  pub record IsValid (assets : Assets Time) : Type 0 where
    pub sound : (id : String) (a : Asset Time) → lookup id assets ≡ some a → IsSound id a
    pub distinct : IsDistinct (keys assets)

  -- What `PutBytes` stores.
  stored_asset : String → List ℕ → PutOptions Time → Time → Asset Time
  stored_asset id body options now = record {
    metadata = build_metadata go id body options now;
    body = body;
  }

  put_bytes-ok :
      (id : String) (body : List ℕ) (options : PutOptions Time) (now : Time)
      (assets assets' : Assets Time) (metadata : Metadata Time)
      → put_bytes go id body options now assets ≡ ok (metadata, assets')
      → ((id == "") ≡ false)
        × (metadata ≡ build_metadata go id body options now)
        × (assets' ≡ put id (stored_asset id body options now) assets)
  unfolding put_bytes stored_asset
  put_bytes-ok id body options now assets assets' metadata e =
      ground (arith, e, clone_metadata-eq (build_metadata go id body options now))

  stored_asset-IsSound :
      (id : String) (body : List ℕ) (options : PutOptions Time) (now : Time)
      → (id == "") ≡ false
      → IsSound id (stored_asset id body options now)
  unfolding stored_asset build_metadata validate
  stored_asset-IsSound id body options now named = (
    refl,
    named,
    ground (
      arith,
      nat_eq.beq_iff (length body) (length body),
      eq_iff (go.md5_hex body) (go.md5_hex body),
      eq_iff (go.sha256_hex body) (go.sha256_hex body),
    ),
  )

  put-IsValid :
      (id : String) (a : Asset Time) (assets : Assets Time)
      → IsValid assets
      → IsSound id a
      → IsValid (put id a assets)
  put-IsValid id a assets v s = record {
    sound = λ j b found. elim (Bool-cases (j == id)) [
      | inl same ↦
          let is_a : b ≡ a = cc (rw (lookup-put id j a assets, same) at found) in
          rw ((eq_iff j id).0 same, is_a) s
      | inr other ↦ v.sound j b (rw (lookup-put id j a assets, other) at found)
    ];
    distinct = put-IsDistinct id a assets v.distinct;
  }

  -- A `PutBytes` that gives no error leaves a valid store valid.
  pub put_bytes-IsValid :
      (id : String) (body : List ℕ) (options : PutOptions Time) (now : Time)
      (assets assets' : Assets Time) (metadata : Metadata Time)
      → IsValid assets
      → put_bytes go id body options now assets ≡ ok (metadata, assets')
      → IsValid assets'
  unfolding put_bytes
  put_bytes-IsValid id body options now assets assets' metadata v e =
      let (named, _, same) = put_bytes-ok id body options now assets assets' metadata e in
      rw same (
        put-IsValid id (stored_asset id body options now) assets v
          (stored_asset-IsSound id body options now named))

  pub delete-IsValid :
      (id : String) (assets : Assets Time) → IsValid assets → IsValid (delete id assets).1
  unfolding delete
  delete-IsValid id assets v = elim (Bool-cases (is_some (lookup id assets))) [
    | inl stored ↦ rw stored (record {
      sound = λ j a found. v.sound j a (ground (arith, found, lookup-erase id j assets));
      distinct = erase-IsDistinct id assets v.distinct;
    })
    | inr absent ↦ rw absent v
  ]

  restored : FullAssetSnapshot Time → Asset Time
  restored item = record { metadata = clone_metadata item.metadata; body = item.body }

  -- What an accepted list begins with.
  restore_each-cons :
      (next next' : Assets Time) (item : FullAssetSnapshot Time)
      (items : List (FullAssetSnapshot Time))
      → restore_each go next (item ∷ items) ≡ ok next'
      → ((item.metadata.id == "") ≡ false)
        × (validate go item ≡ none)
        × (restore_each go (put item.metadata.id (restored item) next) items ≡ ok next')
  unfolding restore_each restored
  restore_each-cons next next' item items e = ground (
    arith,
    e,
    Option-cases (validate go item),
    Bool-cases (is_some (lookup item.metadata.id next)),
  )

  restored-IsSound :
      (item : FullAssetSnapshot Time)
      → (item.metadata.id == "") ≡ false
      → validate go item ≡ none
      → IsSound item.metadata.id (restored item)
  unfolding restored
  restored-IsSound item named good = rw clone_metadata-eq (refl, named, good)

  restore_each-IsValid :
      (items : List (FullAssetSnapshot Time)) (next next' : Assets Time)
      → IsValid next
      → restore_each go next items ≡ ok next'
      → IsValid next'
  restore_each-IsValid [] next next' v e =
      unfold restore_each in (let same : next ≡ next' = cc in rw same at v)
  restore_each-IsValid (item ∷ items) next next' v e =
      let (named, good, more) = restore_each-cons next next' item items e in
      restore_each-IsValid items (put item.metadata.id (restored item) next) next'
        (put-IsValid item.metadata.id (restored item) next v (restored-IsSound item named good))
        more

  -- Whatever the snapshot, `RestoreFullSnapshot` leaves a valid store valid, with and without an
  -- error.
  pub restore_full_snapshot-IsValid :
      (items : List (FullAssetSnapshot Time)) (assets : Assets Time)
      → IsValid assets
      → IsValid (restore_full_snapshot go items assets).1
  unfolding restore_full_snapshot
  restore_full_snapshot-IsValid items assets v = elim (Result-cases (restore_each go [] items)) [
    | inl (next, e) ↦
        rw (e, restore_full_snapshot)
          (restore_each-IsValid items [] next
            (record { sound = λ id a found. unfold lookup in cc; distinct = tt }) e)
    | inr (problem, e) ↦ rw (e, restore_full_snapshot) v
  ]

  -- After a `PutBytes` without an error, `Bytes` gives what was put under the id, with the metadata
  -- that `PutBytes` returned, and every other id reads as before.
  pub bytes-put_bytes :
      (id j : String) (body : List ℕ) (options : PutOptions Time) (now : Time)
      (assets assets' : Assets Time) (metadata : Metadata Time)
      → put_bytes go id body options now assets ≡ ok (metadata, assets')
      → bytes j assets' ≡ (if j == id then some (body, metadata) else bytes j assets)
  unfolding put_bytes bytes stored_asset
  bytes-put_bytes id j body options now assets assets' metadata e =
      let (_, named, same) = put_bytes-ok id body options now assets assets' metadata e in
      elim (Bool-cases (j == id)) [
        | inl hit ↦ rw (same, named, hit, bytes) (rw lookup-put (rw (hit, clone_metadata-eq) refl))
        | inr miss ↦ rw (same, miss, bytes) (rw lookup-put (rw miss refl))
      ]

  -- The sound asset at the front is accepted.
  restore_each-own :
      (next : Assets Time) (a : Asset Time) (items : List (FullAssetSnapshot Time))
      → (a.metadata.id == "") ≡ false
      → validate go (record { metadata = a.metadata; body = a.body }) ≡ none
      → lookup a.metadata.id next ≡ none
      → restore_each go next (full_asset_snapshot a ∷ items)
        ≡ restore_each go (put a.metadata.id a next) items
  unfolding restore_each full_asset_snapshot
  restore_each-own next a items named good absent =
      ap (λ m. restore_each go next (record { metadata = m; body = a.body } ∷ items))
        (clone_metadata-eq a.metadata)
      ∙ rw (named, absent, good)
          (ap
            (λ m.
              restore_each go (put a.metadata.id (record { metadata = m; body = a.body }) next)
                items)
            (clone_metadata-eq a.metadata))

  restore_each_sound :
      (next : Assets Time) (id : String) (a : Asset Time) (items : List (FullAssetSnapshot Time))
      → IsSound id a
      → lookup id next ≡ none
      → restore_each go next (full_asset_snapshot a ∷ items) ≡ restore_each go (put id a next) items
  restore_each_sound next id a items (same, named, good) absent =
      restore_each-own next a items (ap (λ i. i == "") same ∙ named) good
        (ap (λ i. lookup i next) same ∙ absent)
      ∙ ap (λ i. restore_each go (put i a next) items) same

  restore_each-ids :
      (assets next : Assets Time) (ids : List String)
      → IsValid assets
      → All (λ id. is_some (lookup id assets) ≡ true) ids
      → IsDistinct ids
      → ((id : String) → contains id ids ≡ true → lookup id next ≡ none)
      → (next' : Assets Time) × (restore_each go next (for_each_id full_asset_snapshot assets ids)
          ≡ ok next')
        × ((j : String)
            → lookup j next' ≡ (if contains j ids then lookup j assets else lookup j next))
  unfolding contains for_each_id
  restore_each-ids assets next [] v s d absent = (next, unfold restore_each in refl, λ j. refl)
  restore_each-ids assets next (id ∷ ids) v (stored, s) (new, d) absent =
      elim (Option-cases (lookup id assets)) [
        | inl missing ↦ cc
        | inr (a, found) ↦
            let (next', restored, reads) =
              restore_each-ids assets (put id a next) ids v s d
                (λ j there. ground (arith, lookup-put id j a next, absent j, eq_iff j id)) in
            (
              next',
              rw (found, for_each_id)
                  (restore_each_sound next id a _ (v.sound id a found)
                      (absent id (ground (arith, eq_iff id id)))
                    ∙ restored),
              λ j. reads j ∙ ground (arith, lookup-put id j a next, eq_iff j id),
            )
      ]

  sorted_ids-stored :
      (assets : Assets Time) → All (λ id. is_some (lookup id assets) ≡ true) (sorted_ids assets)
  unfolding sorted_ids
  sorted_ids-stored assets = All-of_contains (sorted_ids assets) (λ id there.
      sym (contains-keys id assets) ∙ sym (contains-sort ⦃o = text_order⦄ id (keys assets)) ∙ there)

  sorted_ids-IsDistinct :
      (assets : Assets Time) → IsDistinct (keys assets) → IsDistinct (sorted_ids assets)
  unfolding sorted_ids
  sorted_ids-IsDistinct assets d =
      IsSorted-IsDistinct ⦃o = text_order⦄ _ (sort-IsSorted ⦃o = text_order⦄ (keys assets) d)

  all_read :
      (assets : Assets Time) (id : String)
      → (if contains id (sorted_ids assets) then lookup id assets else lookup id [])
        ≡ lookup id assets
  unfolding sorted_ids lookup
  all_read assets id =
      rw (contains-sort ⦃o = text_order⦄ id (keys assets), contains-keys id assets)
        (ground (arith, Option-cases (lookup id assets)))

  -- A full snapshot of a valid store is restored without error into any store, which then has the
  -- same asset under every id, whatever it held before.
  pub restore_full_snapshot-full_snapshot :
      (assets other : Assets Time)
      → IsValid assets
      → ((restore_full_snapshot go (full_snapshot assets) other).0 ≡ none)
        × ((id : String)
            → lookup id (restore_full_snapshot go (full_snapshot assets) other).1
              ≡ lookup id assets)
  unfolding restore_full_snapshot full_snapshot
  restore_full_snapshot-full_snapshot assets other v =
      let ids = sorted_ids assets in
      let (next, e, reads) =
        restore_each-ids assets [] (sorted_ids assets) v (sorted_ids-stored assets)
          (sorted_ids-IsDistinct assets v.distinct) (λ id there. unfold lookup in refl) in
      rw (e, restore_full_snapshot) (refl, λ id. reads id ∙ all_read assets id)
