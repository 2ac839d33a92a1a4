-- ===== src/Http/Path.antt =====
-- Paths in internal/core/http/router.go: `normalizePath`, `splitPath`, `stripPrefix`,
-- `hasPathPrefix`.
pub mod Laws
use Prim.Native.String
use Prim.Native.String.{String}
use emulate.Prelude.{
  Bool, true, false, Option, none, some, List, [], ◌∷◌, ◌||◌, string_eq, ◌==◌, if◌then◌else◌,
}
use emulate.Prelude.Text.{has_prefix, trim_prefix}
use emulate.Prelude.Split.{split}

-- `normalizePath`
unfoldable pub normalize_path : String → String
normalize_path value =
    if value == "" then "/" else if has_prefix value "/" then value else String.◌++◌ "/" value

-- `splitPath`
unfoldable pub split_path : String → List String
split_path value =
    let normalized = normalize_path value in
    if normalized == "/" then [] else split b'/' (trim_prefix normalized "/")

-- `stripPrefix`
unfoldable pub strip_prefix : String → String → String
strip_prefix prefix path =
    let stripped = trim_prefix path prefix in
    if prefix == "/"
    then path
    else if stripped == ""
    then "/"
    else if has_prefix stripped "/"
    then stripped
    else String.◌++◌ "/" stripped

-- `hasPathPrefix`
unfoldable pub has_path_prefix : String → String → Bool
has_path_prefix prefix path =
    if prefix == "/" then true else path == prefix || has_prefix path (String.◌++◌ prefix "/")
