-- ===== src/Auth/Credentials.antt =====
-- internal/services/aws/auth/credentials.go: the credentials by access key id. A nil pointer to a
-- store is `none`.
use emulate.Prelude.{
  ◌≡◌, Bool, true, false, Option, none, some, List, [], ◌∷◌, String, string_eq, ◌==◌, if◌then◌else◌,
  arith, Option-cases,
}
use text.Mathlib.TextEquality.{eq_iff}
use emulate.Prelude.Assoc.{Assoc, lookup, put, erase, is_some, lookup-put, lookup-erase}

pub record Credential : Type 0 where
  pub access_key_id : String
  pub secret_access_key : String
  pub session_token : String
  pub account_id : String
  pub principal_arn : String
  pub disabled : Bool

-- `*Store`
abbrev pub CredentialStore : Type 0
CredentialStore = Option (Assoc String Credential)

add_each : Assoc String Credential → List Credential → Assoc String Credential
add_each credentials [] = credentials
add_each credentials (c ∷ cs) =
    add_each (if c.access_key_id == "" then credentials else put c.access_key_id c credentials) cs

-- `NewStore`
unfoldable pub new_store : List Credential → CredentialStore
unfolding add_each
new_store credentials = some (add_each [] credentials)

-- `Resolve` of the store
unfoldable pub find_credential : CredentialStore → String → Option Credential
find_credential none id = none
find_credential (some credentials) id = if id == "" then none else elim (lookup id credentials) [
  | none ↦ none
  | some credential ↦ if credential.disabled then none else some credential
]

-- `Put`
unfoldable pub put_credential : CredentialStore → Credential → Bool × CredentialStore
put_credential none credential = (false, none)
put_credential (some credentials) credential =
    if credential.access_key_id == ""
    then (false, some credentials)
    else (true, some (put credential.access_key_id credential credentials))

-- `Delete`
unfoldable pub delete_credential : CredentialStore → String → Bool × CredentialStore
delete_credential none id = (false, none)
delete_credential (some credentials) id =
    if id == ""
    then (false, some credentials)
    else if is_some (lookup id credentials)
    then (true, some (erase id credentials))
    else (false, some credentials)

-- Once a key is deleted it does not resolve any more, and every other key resolves as before.
pub find_credential-delete_credential :
    (s : CredentialStore) (id key : String)
    → find_credential (delete_credential s id).1 key
      ≡ (if key == id then none else find_credential s key)
unfolding find_credential delete_credential
find_credential-delete_credential none id key = ground arith
find_credential-delete_credential (some cs) id key = ground (
  arith,
  lookup-erase id key cs,
  eq_iff key id,
  eq_iff key "",
  eq_iff id "",
  Option-cases (lookup id cs),
  Option-cases (lookup key cs),
)

-- A credential with a key that is put into a store resolves under that key unless it is disabled,
-- and every other key resolves as before.
pub find_credential-put_credential :
    (cs : Assoc String Credential) (c : Credential) (key : String)
    → (c.access_key_id == "") ≡ false
    → find_credential (put_credential (some cs) c).1 key ≡ (
        if key == c.access_key_id
        then if c.disabled then none else some c
        else find_credential (some cs) key)
unfolding find_credential put_credential
find_credential-put_credential cs c key named =
    ground
      (arith, named, lookup-put c.access_key_id key c cs, eq_iff key c.access_key_id, eq_iff key "")
