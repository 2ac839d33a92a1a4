-- ===== src/Prelude/Text.antt =====
-- Text as Go's `strings` and `sort` see it: the bytewise order of UTF-8 is that of the code points.
use emulate.Prelude.Tests.{string_eq, ltb, eqb, ◌==◌, if◌then◌else◌}
use Prim.Native.Nat.{ℕ}
use emulate.Prelude.Order.{Order}
use Prim.Native.Char.{code}
use Prim.Native.String.{String, [], ◌∷◌}
use mathlib.Core.Path.{◌≡◌, refl, ap₂}
use mathlib.Core.Option.{Option, none, some}
use mathlib.Core.Bool.{Bool, true, false}
use native.Mathlib.Omega.{arith}
use text.Mathlib.TextEquality.{Char-path}

unfoldable pub text_less : String → String → Bool
text_less [] [] = false
text_less [] (d ∷ t) = true
text_less (c ∷ s) [] = false
text_less (c ∷ s) (d ∷ t) =
    if ltb (code c) (code d) then true else if eqb (code c) (code d) then text_less s t else false

pub text_less_irrefl : (s : String) → text_less s s ≡ false
unfolding text_less
text_less_irrefl [] = refl
text_less_irrefl (c ∷ s) = ground (arith, text_less_irrefl s)

pub text_less_trans :
    (s t u : String) → text_less s t ≡ true → text_less t u ≡ true → text_less s u ≡ true
unfolding text_less
text_less_trans [] (d ∷ t) [] h k = ground arith
text_less_trans [] (d ∷ t) (f ∷ u) h k = refl
text_less_trans (c ∷ s) (d ∷ t) (f ∷ u) h k = ground (arith, text_less_trans s t u)
text_less_trans _ _ _ h k = ground arith

pub text_less_total : (s t : String) → text_less s t ≡ false → text_less t s ≡ false → s ≡ t
unfolding text_less
text_less_total [] [] h k = refl
text_less_total (c ∷ s) (d ∷ t) h k =
    ap₂ ◌∷◌ (Char-path c d (ground arith)) (text_less_total s t (ground arith) (ground arith))
text_less_total _ _ h k = ground arith

instance abbrev pub text_order : Order String
text_order = record {
  eq = string_eq;
  less = text_less;
  irrefl = text_less_irrefl;
  trans = text_less_trans;
  total = text_less_total;
}

-- What is left of a text behind a prefix.
unfoldable pub after_prefix : String → String → Option String
after_prefix s [] = some s
after_prefix [] (c ∷ p) = none
after_prefix (d ∷ s) (c ∷ p) = if eqb (code d) (code c) then after_prefix s p else none

-- `strings.HasPrefix`
unfoldable pub has_prefix : String → String → Bool
unfolding after_prefix
has_prefix s p = elim (after_prefix s p) [ none ↦ false | some rest ↦ true ]

-- `strings.TrimPrefix`
unfoldable pub trim_prefix : String → String → String
unfolding after_prefix
trim_prefix s p = elim (after_prefix s p) [ none ↦ s | some rest ↦ rest ]

-- `strings.HasSuffix`
unfoldable pub has_suffix : String → String → Bool
has_suffix [] p = p == []
has_suffix (c ∷ s) p = let rest = has_suffix s p in if p == (c ∷ s) then true else rest

-- `strings.TrimSuffix`
unfoldable pub trim_suffix : String → String → String
trim_suffix [] p = []
trim_suffix (c ∷ s) p = let rest = trim_suffix s p in if p == (c ∷ s) then [] else c ∷ rest

-- Whether a text has the character.
unfoldable pub contains_text : ℕ → String → Bool
contains_text n [] = false
contains_text n (c ∷ s) = let rest = contains_text n s in if eqb (code c) n then true else rest

-- `strings.TrimRight` with one character
unfoldable pub trim_right : ℕ → String → String
trim_right n [] = []
trim_right n (c ∷ s) =
    let rest = trim_right n s in
    if rest == [] then (if eqb (code c) n then [] else c ∷ []) else c ∷ rest
