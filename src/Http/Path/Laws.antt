-- ===== src/Http/Path/Laws.antt =====
-- Paths that are normalised, split and stripped of a mount's prefix.
use Prim.Native.Char.{code}
use Prim.Native.String
use Prim.Native.String.{String}
use emulate.Prelude.{
  ◌≡◌, ◌≢◌, ◌⊎◌, inl, inr, refl, sym, ap, ap₂, ◌∙◌, true, false, some, string_eq, ◌==◌, arith,
  Bool-cases, eqb,
}
use text.Mathlib.TextEquality.{eq_iff, Char-path}
use text.Mathlib.TextLemmas.{nil-append, cons-append, append-nil, append_assoc}
use emulate.Prelude.Text.{after_prefix, has_prefix, trim_prefix}
use emulate.Prelude.Split.{join, join-split}
use emulate.Http.Path.{normalize_path, split_path, strip_prefix, has_path_prefix}

-- The text begins with a slash.
abbrev pub IsRooted : String → Type 0
IsRooted path = has_prefix path "/" ≡ true

has_prefix-slash : (s : String) → has_prefix (String.◌++◌ "/" s) "/" ≡ true
unfolding has_prefix
has_prefix-slash s = rw cons-append refl

pub normalize_path-IsRooted : (value : String) → IsRooted (normalize_path value)
unfolding normalize_path
normalize_path-IsRooted value = elim (Bool-cases (value == "")) [
  | inl empty ↦ rw (empty, normalize_path) (unfold has_prefix in refl)
  | inr other ↦ elim (Bool-cases (has_prefix value "/")) [
    | inl rooted ↦ rw (other, rooted, normalize_path) rooted
    | inr bare ↦ rw (other, bare, normalize_path) (has_prefix-slash value)
  ]
]

unrooted_empty : has_prefix "" "/" ≡ false
unfolding has_prefix
unrooted_empty = refl

-- What is rooted already stays as it is.
normalize_path_of_IsRooted : (path : String) → IsRooted path → normalize_path path ≡ path
unfolding normalize_path
normalize_path_of_IsRooted path h = elim (Bool-cases (path == "")) [
  | inl empty ↦ cc (h, (eq_iff path "").0 empty, unrooted_empty)
  | inr other ↦ rw (other, normalize_path) (rw h refl)
]

-- Every path is normalised to one that begins with a slash, and that one stays as it is.
pub normalize_path_idem :
    (value : String)
    → IsRooted (normalize_path value)
      × (normalize_path (normalize_path value) ≡ normalize_path value)
normalize_path_idem value = (
  normalize_path-IsRooted value,
  normalize_path_of_IsRooted (normalize_path value) (normalize_path-IsRooted value),
)

after_prefix-append : (p t : String) → after_prefix (String.◌++◌ p t) p ≡ some t
unfolding after_prefix
after_prefix-append String.[] t = rw nil-append refl
after_prefix-append (String.◌∷◌ c p) t = rw cons-append (ground (arith, after_prefix-append p t))

-- What stands behind a prefix makes the text up again.
append-after_prefix : (s p rest : String) → after_prefix s p ≡ some rest → String.◌++◌ p rest ≡ s
unfolding after_prefix
append-after_prefix s String.[] rest h = cc (nil-append rest)
append-after_prefix String.[] (String.◌∷◌ c p) rest h = cc
append-after_prefix (String.◌∷◌ d s) (String.◌∷◌ c p) rest h =
    elim (Bool-cases (eqb (code d) (code c))) [
      | inl same ↦
          cons-append c p rest
          ∙ ap₂ String.◌∷◌ (Char-path c d (ground arith))
              (append-after_prefix s p rest (ground arith))
      | inr other ↦ cc (rw other at h)
    ]

has_prefix_cases :
    (s p : String) → has_prefix s p ≡ true → (rest : String) × (after_prefix s p ≡ some rest)
unfolding has_prefix
has_prefix_cases s p h = ground arith

-- The parts of a path, joined behind a slash, are the normalised path.
pub join-split_path :
    (value : String) → String.◌++◌ "/" (join "/" (split_path value)) ≡ normalize_path value
unfolding split_path trim_prefix
join-split_path value = elim (Bool-cases (normalize_path value == "/")) [
  | inl root ↦ rw root (unfold join in rw append-nil (sym ((eq_iff _ _).0 root)))
  | inr other ↦
      let (rest, left) = has_prefix_cases _ _ (normalize_path-IsRooted value) in
      rw other (
        ap (String.◌++◌ "/") (join-split "/" (trim_prefix (normalize_path value) "/"))
        ∙ rw (left, trim_prefix) (append-after_prefix (normalize_path value) "/" rest left))
]

-- The path is at the prefix or below it.
abbrev pub IsBelow : String → String → Type 0
IsBelow prefix path =
    (prefix ≡ "/")
    ⊎ (path ≡ prefix)
    ⊎ (rest : String) × (String.◌++◌ prefix (String.◌++◌ "/" rest) ≡ path)

pub has_path_prefix-IsBelow :
    (prefix path : String) → has_path_prefix prefix path ≡ true → IsBelow prefix path
unfolding has_path_prefix
has_path_prefix-IsBelow prefix path h = elim (Bool-cases (prefix == "/")) [
  | inl root ↦ inl ((eq_iff prefix "/").0 root)
  | inr other ↦ elim (Bool-cases (path == prefix)) [
    | inl same ↦ inr (inl ((eq_iff path prefix).0 same))
    | inr below ↦
        let (rest, left) =
          has_prefix_cases path (String.◌++◌ prefix "/") (ground (arith, other, below)) in
        inr (
          inr (
            rest,
            sym (append_assoc prefix "/" rest)
                ∙ append-after_prefix path (String.◌++◌ prefix "/") rest left,
          ))
  ]
]

has_prefix-append : (p t : String) → has_prefix (String.◌++◌ p t) p ≡ true
unfolding has_prefix
has_prefix-append p t = rw (after_prefix-append p t, has_prefix) refl

pub IsBelow-has_path_prefix :
    (prefix path : String) → IsBelow prefix path → has_path_prefix prefix path ≡ true
unfolding has_path_prefix
IsBelow-has_path_prefix prefix path (inl root) = ground (arith, eq_iff prefix "/", root)
IsBelow-has_path_prefix prefix path (inr (inl same)) = ground (arith, eq_iff path prefix, same)
IsBelow-has_path_prefix prefix path (inr (inr (rest, whole))) =
    let hit : has_prefix path (String.◌++◌ prefix "/") ≡ true =
      rw (← whole)
        (rw (← append_assoc prefix "/" rest) (has_prefix-append (String.◌++◌ prefix "/") rest)) in
    ground (arith, hit)

trim_prefix-append : (p t : String) → trim_prefix (String.◌++◌ p t) p ≡ t
unfolding trim_prefix
trim_prefix-append p t = ground (arith, after_prefix-append p t)

strip_prefix_self : (p : String) → p ≢ "/" → strip_prefix p p ≡ "/"
unfolding strip_prefix
strip_prefix_self p h =
    let whole : trim_prefix p p ≡ "" = rw append-nil at (trim_prefix-append p "") in
    ground (arith, eq_iff p "/", whole, eq_iff (trim_prefix p p) "")

slash-ne-nil : (rest : String) → String.◌++◌ "/" rest ≢ ""
slash-ne-nil rest h = cc (h, has_prefix-slash rest, unrooted_empty)

strip_prefix-append :
    (p rest : String)
    → p ≢ "/"
    → strip_prefix p (String.◌++◌ p (String.◌++◌ "/" rest)) ≡ String.◌++◌ "/" rest
unfolding strip_prefix
strip_prefix-append p rest h =
    let below = String.◌++◌ "/" rest in
    rw (trim_prefix-append p below)
      (ground (arith, eq_iff p "/", eq_iff below "", slash-ne-nil rest, has_prefix-slash rest))

-- A path at or below a prefix that is not the root is the prefix, which is seen as the root, or
-- the prefix followed by what is seen, which begins with a slash.
pub strip_prefix-mounted :
    (prefix path : String)
    → prefix ≢ "/"
    → has_path_prefix prefix path ≡ true
    → ((path ≡ prefix) × (strip_prefix prefix path ≡ "/"))
      ⊎ (IsRooted (strip_prefix prefix path)
          × (String.◌++◌ prefix (strip_prefix prefix path) ≡ path))
unfolding has_path_prefix
strip_prefix-mounted prefix path h k = elim (Bool-cases (path == prefix)) [
  | inl same ↦
      let equal : path ≡ prefix = (eq_iff path prefix).0 same in
      inl (equal, rw equal (strip_prefix_self prefix h))
  | inr other ↦
      let (rest, left) =
        has_prefix_cases path (String.◌++◌ prefix "/") (ground (arith, eq_iff prefix "/")) in
      let whole : String.◌++◌ prefix (String.◌++◌ "/" rest) ≡ path =
        sym (append_assoc prefix "/" rest)
        ∙ append-after_prefix path (String.◌++◌ prefix "/") rest left in
      let seen = strip_prefix-append prefix rest h in
      rw (← whole) (inr (rw seen (has_prefix-slash rest), ap (String.◌++◌ prefix) seen))
]
