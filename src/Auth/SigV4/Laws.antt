-- ===== src/Auth/SigV4/Laws.antt =====
-- What an accepted signature contains.
use emulate.Prelude.{
  ◌≡◌, ◌≢◌, sym, ap, ◌∙◌, inl, inr, Bool, true, false, List, [], ◌∷◌, String, string_eq, ◌==◌,
  arith, Bool-cases,
}
use text.Mathlib.TextEquality.{eq_iff}
use emulate.Prelude.Split.{split, join, join-split}
use emulate.Prelude.Result.{ok, Result-cases, ok_inj}
use emulate.Auth.SigV4.{
  Strings, Request, Scope, Signature, algorithm_sig_v4, scope_of_parts, is_empty, unescaped,
  parse_credential_scope, split_signed_headers, checked_signature, parse_presigned_sig_v4,
  parse_fields, parse_authorization_header, has_presign_parameters, is_token_authorization_scheme,
  parse_sig_v4,
}

-- The pieces of a credential scope.
abbrev pub parts : String → Scope → List String
parts key scope = key ∷ scope.date ∷ scope.region ∷ scope.service ∷ scope.terminal ∷ []

-- No piece of the scope is empty, and the last one is the request marker of the algorithm.
abbrev pub IsComplete : String → Scope → Type 0
IsComplete key scope =
    (key ≢ "")
    × (scope.date ≢ "")
    × (scope.region ≢ "")
    × (scope.service ≢ "")
    × (scope.terminal ≡ "aws4_request")

scope_of_parts-ok :
    (pieces : List String) (key : String) (scope : Scope)
    → scope_of_parts pieces ≡ ok (key, scope)
    → (pieces ≡ parts key scope) × IsComplete key scope
unfolding scope_of_parts
scope_of_parts-ok [] key scope e = cc
scope_of_parts-ok (a ∷ []) key scope e = cc
scope_of_parts-ok (a ∷ b ∷ []) key scope e = cc
scope_of_parts-ok (a ∷ b ∷ c ∷ []) key scope e = cc
scope_of_parts-ok (a ∷ b ∷ c ∷ d ∷ []) key scope e = cc
scope_of_parts-ok (a ∷ b ∷ c ∷ d ∷ t ∷ []) key scope e = ground (
  arith,
  e,
  eq_iff a "",
  eq_iff b "",
  eq_iff c "",
  eq_iff d "",
  eq_iff t "",
  eq_iff t "aws4_request",
)
scope_of_parts-ok (a ∷ b ∷ c ∷ d ∷ t ∷ u ∷ more) key scope e = cc

module _ (go : Strings) where
  -- A credential scope that is accepted is, once decoded, its five pieces with a slash between
  -- them, none of which is empty and the last of which is `aws4_request`.
  pub parse_credential_scope-ok :
      (value key : String) (scope : Scope)
      → parse_credential_scope go value ≡ ok (key, scope)
      → (join "/" (parts key scope) ≡ unescaped go (go.trim_space value)) × IsComplete key scope
  unfolding parse_credential_scope
  parse_credential_scope-ok value key scope e = elim (Bool-cases (go.trim_space value == "")) [
    | inl empty ↦ cc (rw empty at e)
    | inr some_text ↦
        let decoded = unescaped go (go.trim_space value) in
        let (same, complete) =
          scope_of_parts-ok (split b'/' (unescaped go (go.trim_space value))) key scope
            (rw some_text at e) in
        (ap (join "/") (sym same) ∙ join-split "/" (unescaped go (go.trim_space value)), complete)
  ]

  -- What a signature has that is accepted.
  abbrev pub IsSigned : Signature → Type 0
  IsSigned s =
      (s.algorithm ≡ algorithm_sig_v4)
      × (parse_credential_scope go s.raw_credential ≡ ok (s.access_key_id, s.scope))
      × (is_empty s.signed_headers ≡ false)
      × (s.signature_value ≢ "")

  checked_signature-ok :
      (raw headers value token algorithm : String) (presigned : Bool) (s : Signature)
      → algorithm ≡ algorithm_sig_v4
      → checked_signature go raw headers value token presigned algorithm ≡ ok s
      → IsSigned s
  unfolding checked_signature
  checked_signature-ok raw headers value token algorithm presigned s named e =
      let headers_kept = split_signed_headers go headers in
      let signature_value = go.trim_space value in
      ground (
        arith,
        e,
        named,
        eq_iff (go.trim_space value) "",
        Result-cases (parse_credential_scope go raw),
      )

  parse_presigned_sig_v4-ok :
      (req : Request) (s : Signature) → parse_presigned_sig_v4 go req ≡ ok s → IsSigned s
  unfolding parse_presigned_sig_v4
  parse_presigned_sig_v4-ok req s e =
      let algorithm = go.trim_space (req.query "X-Amz-Algorithm") in
      elim (Bool-cases (go.trim_space (req.query "X-Amz-Algorithm") == "")) [
        | inl empty ↦ cc (rw empty at e)
        | inr named ↦
            elim (Bool-cases (go.trim_space (req.query "X-Amz-Algorithm") == algorithm_sig_v4)) [
              | inl right ↦
                  checked_signature-ok _ _ _ _ _ _ s ((eq_iff algorithm algorithm_sig_v4).0 right)
                    (rw (named, right) at e)
              | inr wrong ↦ cc (rw (named, wrong) at e)
            ]
      ]

  parse_fields-ok :
      (req : Request) (header : String) (fields : List String) (s : Signature)
      → parse_fields go req header fields ≡ ok s
      → s.present ≡ true
      → IsSigned s
  unfolding parse_fields
  parse_fields-ok req header [] s e present = cc (ap Signature.present (ok_inj e))
  parse_fields-ok req header (algorithm ∷ more) s e present =
      elim (Bool-cases (is_token_authorization_scheme go algorithm)) [
        | inl token ↦ cc (ap Signature.present (ok_inj (rw token at e)))
        | inr other ↦ elim (Bool-cases (algorithm == algorithm_sig_v4)) [
          | inl right ↦
              checked_signature-ok _ _ _ _ _ _ s ((eq_iff algorithm algorithm_sig_v4).0 right)
                (rw (other, right) at e)
          | inr wrong ↦ cc (rw (other, wrong) at e)
        ]
      ]

  parse_authorization_header-ok :
      (req : Request) (s : Signature)
      → parse_authorization_header go req ≡ ok s
      → s.present ≡ true
      → IsSigned s
  unfolding parse_authorization_header
  parse_authorization_header-ok req s e present =
      let header = go.trim_space (req.header "Authorization") in
      elim (Bool-cases (go.trim_space (req.header "Authorization") == "")) [
        | inl empty ↦ cc (ap Signature.present (ok_inj (rw empty at e)))
        | inr some_text ↦
            parse_fields-ok req header (go.fields header) s (rw some_text at e) present
      ]

  -- A signature that is present in a request which is accepted has the algorithm
  -- AWS4-HMAC-SHA256, the key and the scope that its credential parses to, some signed header and
  -- a value.
  pub parse_sig_v4-IsSigned :
      (req : Request) (s : Signature) → parse_sig_v4 go req ≡ ok s → s.present ≡ true → IsSigned s
  unfolding parse_sig_v4
  parse_sig_v4-IsSigned req s e present = elim (Bool-cases (has_presign_parameters req)) [
    | inl presigned ↦ parse_presigned_sig_v4-ok req s (rw presigned at e)
    | inr plain ↦ parse_authorization_header-ok req s (rw plain at e) present
  ]
