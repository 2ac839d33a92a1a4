-- ===== src/Assets.antt =====
-- The asset store of internal/core/assets/store.go: bodies and their metadata by id, and the
-- snapshots of them.
pub mod Laws
use emulate.Prelude.{
  ℕ, Bool, true, false, Option, none, some, List, [], ◌∷◌, ◌&&◌, not, String, string_eq, nat_eq,
  ◌==◌, if◌then◌else◌, length,
}
use Prim.Native.String
use emulate.Prelude.Text.{text_order}
use emulate.Prelude.Result.{Result, ok, err}
use emulate.Prelude.Sort.{sort}
use emulate.Prelude.Assoc.{Assoc, keys, lookup, put, erase, is_some}

-- What the store takes from the packages crypto/md5, crypto/sha256, encoding/hex and time. A body
-- is the list of its bytes.
pub record Platform (Time : Type 0) : Type 0 where
  pub md5_hex : List ℕ → String
  pub sha256_hex : List ℕ → String
  pub is_zero : Time → Bool
  pub utc : Time → Time

pub record PutOptions (Time : Type 0) : Type 0 where
  pub purpose : String
  pub content_type : String
  pub etag : String
  pub last_modified : Time
  pub user_metadata : Assoc String String

pub record Metadata (Time : Type 0) : Type 0 where
  pub id : String
  pub purpose : String
  pub content_type : String
  pub content_length : ℕ
  pub checksum_md5 : String
  pub checksum_sha256 : String
  pub etag : String
  pub last_modified : Time
  pub user_metadata : Assoc String String

pub record Reference : Type 0 where
  pub purpose : String
  pub driver : String
  pub key : String
  pub content_length : ℕ
  pub checksum_sha256 : String

pub record AssetSnapshot (Time : Type 0) : Type 0 where
  pub metadata : Metadata Time
  pub reference : Reference

pub record FullAssetSnapshot (Time : Type 0) : Type 0 where
  pub metadata : Metadata Time
  pub body : List ℕ

-- `asset`
pub record Asset (Time : Type 0) : Type 0 where
  pub metadata : Metadata Time
  pub body : List ℕ

-- The map of the store.
abbrev pub Assets : Type 0 → Type 0
Assets Time = Assoc String (Asset Time)

pub data AssetError : Type 0 where
  id_required : AssetError
  duplicate_asset : String → AssetError
  length_mismatch : AssetError
  md5_mismatch : AssetError
  sha256_mismatch : AssetError
  restore_failed : String → AssetError → AssetError

-- `cloneStringMap`
unfoldable pub clone_string_map : Assoc String String → Assoc String String
clone_string_map [] = []
clone_string_map ((key, value) ∷ values) = (key, value) ∷ clone_string_map values

module _ {Time : Type 0} where
  -- `cloneMetadata`
  unfoldable pub clone_metadata : Metadata Time → Metadata Time
  clone_metadata metadata = record metadata {
    user_metadata = clone_string_map metadata.user_metadata;
  }

  -- `Get`
  unfoldable pub get : String → Assets Time → Option (Metadata Time)
  get id assets = elim (lookup id assets) [
    | none ↦ none
    | some asset ↦ some (clone_metadata asset.metadata)
  ]

  -- `Bytes`, whose copy of the body `Open` reads
  unfoldable pub bytes : String → Assets Time → Option (List ℕ × Metadata Time)
  bytes id assets = elim (lookup id assets) [
    | none ↦ none
    | some asset ↦ some (asset.body, clone_metadata asset.metadata)
  ]

  -- `Delete`
  unfoldable pub delete : String → Assets Time → Bool × Assets Time
  delete id assets = if is_some (lookup id assets) then (true, erase id assets) else (false, assets)

  -- `Reset`
  unfoldable pub reset : Assets Time → Assets Time
  reset assets = []

  -- `Count`
  unfoldable pub count : Assets Time → ℕ
  count assets = length assets

  -- `sortedIDsLocked`
  unfoldable pub sorted_ids : Assets Time → List String
  sorted_ids assets = sort ⦃o = text_order⦄ (keys assets)

  -- The loop of `List`, `Snapshot` and `FullSnapshot`, with what each makes of an asset; every id
  -- that it is run on is a key of the map.
  unfoldable pub for_each_id : {A : Type 0} → (Asset Time → A) → Assets Time → List String → List A
  for_each_id f assets [] = []
  for_each_id f assets (id ∷ ids) =
      let rest = for_each_id f assets ids in
      elim (lookup id assets) [ none ↦ rest | some asset ↦ f asset ∷ rest ]

  -- `List`
  unfoldable pub list : Assets Time → List (Metadata Time)
  list assets = for_each_id (λ asset. clone_metadata asset.metadata) assets (sorted_ids assets)

  -- An element of `Snapshot`.
  unfoldable pub asset_snapshot : Asset Time → AssetSnapshot Time
  asset_snapshot asset = record {
    metadata = clone_metadata asset.metadata;
    reference = record {
      purpose = asset.metadata.purpose;
      driver = "memory";
      key = asset.metadata.id;
      content_length = asset.metadata.content_length;
      checksum_sha256 = asset.metadata.checksum_sha256;
    };
  }

  -- `Snapshot`
  unfoldable pub snapshot : Assets Time → List (AssetSnapshot Time)
  snapshot assets = for_each_id asset_snapshot assets (sorted_ids assets)

  -- An element of `FullSnapshot`.
  unfoldable pub full_asset_snapshot : Asset Time → FullAssetSnapshot Time
  full_asset_snapshot asset = record { metadata = clone_metadata asset.metadata; body = asset.body }

  -- `FullSnapshot`
  unfoldable pub full_snapshot : Assets Time → List (FullAssetSnapshot Time)
  full_snapshot assets = for_each_id full_asset_snapshot assets (sorted_ids assets)

module _ {Time : Type 0} (go : Platform Time) where
  -- `buildMetadata`, with the time that its clock gives
  unfoldable pub build_metadata : String → List ℕ → PutOptions Time → Time → Metadata Time
  build_metadata id body options now = record {
    id = id;
    purpose = options.purpose;
    content_type =
        if options.content_type == "" then "application/octet-stream" else options.content_type;
    content_length = length body;
    checksum_md5 = go.md5_hex body;
    checksum_sha256 = go.sha256_hex body;
    etag =
        if options.etag == ""
        then String.◌++◌ "\"" (String.◌++◌ (go.md5_hex body) "\"")
        else options.etag;
    last_modified =
        go.utc (if go.is_zero options.last_modified then now else options.last_modified);
    user_metadata = clone_string_map options.user_metadata;
  }

  -- `PutBytes`, which `Put` calls with what it has read
  unfoldable pub put_bytes :
      String
      → List ℕ
      → PutOptions Time
      → Time
      → Assets Time
      → Result AssetError (Metadata Time × Assets Time)
  put_bytes id body options now assets =
      let metadata = build_metadata id body options now in
      if id == ""
      then err id_required
      else ok (
        clone_metadata metadata,
        put id (record { metadata = clone_metadata metadata; body = body }) assets,
      )

  -- `validateFullAssetSnapshot`
  unfoldable pub validate : FullAssetSnapshot Time → Option AssetError
  validate item =
      let metadata = item.metadata in
      if not (metadata.content_length == length item.body)
      then some length_mismatch
      else if not (metadata.checksum_md5 == "")
          && not (metadata.checksum_md5 == go.md5_hex item.body)
      then some md5_mismatch
      else if not (metadata.checksum_sha256 == "")
          && not (metadata.checksum_sha256 == go.sha256_hex item.body)
      then some sha256_mismatch
      else none

  -- The loop of `RestoreFullSnapshot`.
  unfoldable pub restore_each :
      Assets Time → List (FullAssetSnapshot Time) → Result AssetError (Assets Time)
  restore_each next [] = ok next
  restore_each next (item ∷ items) =
      let id = item.metadata.id in
      let restored : Asset Time = record {
        metadata = clone_metadata item.metadata;
        body = item.body;
      } in
      let rest = restore_each (put id restored next) items in
      if id == ""
      then err id_required
      else if is_some (lookup id next)
      then err (duplicate_asset id)
      else elim (validate item) [ none ↦ rest | some problem ↦ err (restore_failed id problem) ]

  -- `RestoreFullSnapshot`: the error, if any, and the map that the store has afterwards.
  unfoldable pub restore_full_snapshot :
      List (FullAssetSnapshot Time) → Assets Time → Option AssetError × Assets Time
  restore_full_snapshot items assets = elim (restore_each [] items) [
    | ok next ↦ (none, next)
    | err problem ↦ (some problem, assets)
  ]
