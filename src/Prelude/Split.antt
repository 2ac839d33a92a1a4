-- ===== src/Prelude/Split.antt =====
-- `strings.Split`, `strings.Join` and the cuts of Go's slices, at one character.
use emulate.Prelude.Tests.{eqb, if◌then◌else◌, Bool-cases}
use Prim.Native.Nat.{ℕ}
use Prim.Native.Char.{Char, code}
use Prim.Native.String
use Prim.Native.String.{String}
use mathlib.Core.Path.{◌≡◌, refl, ap, ap₂, ◌∙◌}
use mathlib.Core.Logic.{◌≢◌, inl, inr}
use text.Mathlib.TextEquality.{Char-path}
use mathlib.Core.Bool.{Bool, false}
use mathlib.Core.Option.{Option, none, some}
use mathlib.Core.List.{List, [], ◌∷◌}
use native.Mathlib.Omega.{arith}
use text.Mathlib.TextLemmas.{nil-append, cons-append}

-- A character in front of the first of the pieces.
push_front : Char → List String → List String
push_front c [] = String.◌∷◌ c String.[] ∷ []
push_front c (s ∷ ss) = String.◌∷◌ c s ∷ ss

-- `strings.Split` at the character with the code
unfoldable pub split : ℕ → String → List String
unfolding push_front
split sep String.[] = String.[] ∷ []
split sep (String.◌∷◌ c s) =
    let pieces = split sep s in if eqb (code c) sep then String.[] ∷ pieces else push_front c pieces

-- `strings.Join`
unfoldable pub join : Char → List String → String
join sep [] = String.[]
join sep (s ∷ []) = s
join sep (s ∷ t ∷ ss) = String.◌++◌ s (String.◌∷◌ sep (join sep (t ∷ ss)))

-- A character in front of the text before a cut.
push_cut : Char → Option (String × String) → Option (String × String)
push_cut c none = none
push_cut c (some (t, u)) = some (String.◌∷◌ c t, u)

-- The text before the first such character, and the text behind it.
unfoldable pub cut_at : ℕ → String → Option (String × String)
unfolding push_cut
cut_at sep String.[] = none
cut_at sep (String.◌∷◌ c s) =
    let later = push_cut c (cut_at sep s) in if eqb (code c) sep then some (String.[], s) else later

-- `strings.HasSuffix` with one character
unfoldable pub ends_with : ℕ → String → Bool
ends_with last String.[] = false
ends_with last (String.◌∷◌ c String.[]) = eqb (code c) last
ends_with last (String.◌∷◌ c (String.◌∷◌ d s)) = ends_with last (String.◌∷◌ d s)

-- s[:len(s)-1] where the last character has one byte
unfoldable pub drop_last : String → String
drop_last String.[] = String.[]
drop_last (String.◌∷◌ c String.[]) = String.[]
drop_last (String.◌∷◌ c (String.◌∷◌ d s)) = String.◌∷◌ c (drop_last (String.◌∷◌ d s))

push_front-ne-nil : (c : Char) (ss : List String) → push_front c ss ≢ []
unfolding push_front
push_front-ne-nil c [] h = cc
push_front-ne-nil c (s ∷ ss) h = cc

join-push_front :
    (sep c : Char) (ss : List String) → join sep (push_front c ss) ≡ String.◌∷◌ c (join sep ss)
unfolding join push_front
join-push_front sep c [] = refl
join-push_front sep c (s ∷ []) = refl
join-push_front sep c (s ∷ t ∷ ss) = cons-append c s _

join-nil_front :
    (sep : Char) (ss : List String)
    → ss ≢ []
    → join sep (String.[] ∷ ss) ≡ String.◌∷◌ sep (join sep ss)
unfolding join
join-nil_front sep [] h = absurd (h refl)
join-nil_front sep (s ∷ ss) h = nil-append _

pub split-ne-nil : (sep : ℕ) (s : String) → split sep s ≢ []
unfolding split
split-ne-nil sep String.[] h = cc
split-ne-nil sep (String.◌∷◌ c s) h = push_front-ne-nil c (split sep s) (ground arith)

-- Joining the pieces of a text gives it back.
pub join-split : (sep : Char) (s : String) → join sep (split (code sep) s) ≡ s
unfolding split
join-split sep String.[] = unfold join in refl
join-split sep (String.◌∷◌ c s) = elim (Bool-cases (eqb (code c) (code sep))) [
  | inl same ↦ rw same (
      join-nil_front sep (split (code sep) s) (split-ne-nil (code sep) s)
      ∙ ap₂ String.◌∷◌ (Char-path sep c (ground arith)) (join-split sep s))
  | inr other ↦
      rw other (join-push_front sep c (split (code sep) s) ∙ ap (String.◌∷◌ c) (join-split sep s))
]
