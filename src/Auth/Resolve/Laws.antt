-- ===== src/Auth/Resolve/Laws.antt =====
-- Who gets through.
use emulate.Prelude.{
  ◌≡◌, ◌≢◌, refl, ◌⊎◌, inl, inr, true, false, none, some, String, string_eq, ◌==◌, arith,
  Bool-cases, Option-cases,
}
use text.Mathlib.TextEquality.{eq_iff}
use emulate.Prelude.Result.{Result, ok, err}
use emulate.Auth.SigV4.{Strings, Request, Signature, parse_sig_v4}
use emulate.Auth.Credentials.{Credential, find_credential}
use emulate.Auth.Resolve.{
  mode_relaxed, valid_mode, normalize_mode, Context, Options, missing, initial_context, resolve_key,
  resolve_signature, resolve,
}

-- The session token of a credential, where it has one, is the one that was sent.
abbrev pub IsTokenMatch : Credential → Signature → Type 0
IsTokenMatch credential signature =
    (credential.session_token ≡ "") ⊎ (signature.session_token ≡ credential.session_token)

eqb_false : (s t : String) → s ≢ t → (s == t) ≡ false
eqb_false s t h = ground (arith, h, eq_iff s t)

resolve_key-known :
    (options : Options) (ctx : Context) (signature : Signature)
    → ctx.mode ≢ mode_relaxed
    → (resolve_key options ctx signature).error ≡ none
    → (credential : Credential) × (find_credential options.store signature.access_key_id
        ≡ some credential)
      × IsTokenMatch credential signature
      × ((resolve_key options ctx signature).credential ≡ some credential)
unfolding resolve_key
resolve_key-known options ctx signature strict passed =
    elim (Option-cases (find_credential options.store signature.access_key_id)) [
      | inl absent ↦
          cc (rw (absent, (eqb_false ctx.mode mode_relaxed strict), resolve_key) at passed)
      | inr (credential, found) ↦ elim (Bool-cases (credential.session_token == "")) [
        | inl free ↦ (
          credential,
          found,
          inl ((eq_iff credential.session_token "").0 free),
          rw (found, resolve_key) (rw (free) refl),
        )
        | inr bound ↦ elim (Bool-cases (signature.session_token == credential.session_token)) [
          | inl same ↦ (
            credential,
            found,
            inr ((eq_iff signature.session_token credential.session_token).0 same),
            rw (found, resolve_key) (rw (bound, same) refl),
          )
          | inr other ↦ cc (rw (found, bound, other, resolve_key) at passed)
        ]
      ]
    ]

resolve_signature-known :
    (options : Options) (parsed : Result String Signature)
    → normalize_mode options.mode ≢ mode_relaxed
    → (resolve_signature options parsed).error ≡ none
    → (signature : Signature) × (credential : Credential) × (parsed ≡ ok signature)
      × (signature.present ≡ true)
      × (find_credential options.store signature.access_key_id ≡ some credential)
      × IsTokenMatch credential signature
      × ((resolve_signature options parsed).credential ≡ some credential)
unfolding resolve_signature initial_context
resolve_signature-known options (err message) strict passed = cc
resolve_signature-known options (ok signature) strict passed =
    let ctx = record (initial_context options missing) { signature = signature } in
    elim (Bool-cases signature.present) [
      | inl present ↦
          let (credential, found, token, named) =
            resolve_key-known options ctx signature strict (simp (present) at passed) in
          (signature, credential, refl, present, found, token, simp (present, named))
      | inr absent ↦
          cc (rw (absent, eqb_false (normalize_mode options.mode) mode_relaxed strict) at passed)
    ]

-- In every mode but the relaxed one, a request that is let through has a signature that is
-- present and whose key is that of an enabled credential of the store; where that credential has
-- a session token, it is the one that was sent. The context names that credential.
pub resolve-authenticated :
    (go : Strings) (req : Request) (options : Options)
    → normalize_mode options.mode ≢ mode_relaxed
    → (resolve go req options).error ≡ none
    → (signature : Signature) × (credential : Credential) × (parse_sig_v4 go req ≡ ok signature)
      × (signature.present ≡ true)
      × (find_credential options.store signature.access_key_id ≡ some credential)
      × IsTokenMatch credential signature
      × ((resolve go req options).credential ≡ some credential)
unfolding resolve
resolve-authenticated go req options strict passed =
    elim (Bool-cases (valid_mode (normalize_mode options.mode))) [
      | inl valid ↦
          rw (valid)
            (resolve_signature-known options (parse_sig_v4 go req) strict (rw valid at passed))
      | inr bad ↦ cc (rw bad at passed)
    ]
