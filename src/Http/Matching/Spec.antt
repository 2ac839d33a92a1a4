-- ===== src/Http/Matching/Spec.antt =====
-- When a pattern matches the parts of a path, said without the order of the attempts.
use Prim.Native.String.{String}
use emulate.Prelude.{
  ◌≡◌, ◌≢◌, refl, ap, ◌⊎◌, inl, inr, true, false, some, List, [], ◌∷◌, ◌++◌, string_eq, All,
}
use emulate.Prelude.Split.{join}
use emulate.Http.Matching.{Segment, Engine, match_param, is_greedy, cuts, extend_cuts}

-- A wildcard takes all that is left, a parameter with a regular expression any number of parts,
-- another parameter one part, and a literal the part that it is.
pub data Matches (engine : Engine) : List Segment → List String → Type 0 where
  done : Matches engine [] []
  wildcard :
      {seg : Segment} {segs : List Segment} {parts : List String}
      → seg.literal ≡ "*"
      → Matches engine (seg ∷ segs) parts
  many :
      {seg : Segment} {segs : List Segment} {parts : List String} (front back : List String)
      (value : String)
      → is_greedy seg ≡ true
      → front ++ back ≡ parts
      → match_param engine seg (join "/" front) ≡ some value
      → Matches engine segs back
      → Matches engine (seg ∷ segs) parts
  one :
      {seg : Segment} {segs : List Segment} {back : List String} (part value : String)
      → is_greedy seg ≡ false
      → seg.param ≢ ""
      → match_param engine seg part ≡ some value
      → Matches engine segs back
      → Matches engine (seg ∷ segs) (part ∷ back)
  equal :
      {seg : Segment} {segs : List Segment} {back : List String} (part : String)
      → seg.param ≡ ""
      → seg.literal ≡ part
      → Matches engine segs back
      → Matches engine (seg ∷ segs) (part ∷ back)

abbrev pub Cut : Type 0
Cut = List String × List String

-- The cut stands in the list.
abbrev pub Within : Cut → List Cut → Type 0
Within c [] = ⊥
Within c (d ∷ ds) = (c ≡ d) ⊎ Within c ds

-- The cut's two sides make up the parts.
abbrev pub IsCutOf : List String → Cut → Type 0
IsCutOf parts c = c.0 ++ c.1 ≡ parts

extend_cuts-IsCutOf :
    (part : String) (parts : List String) (cs : List Cut)
    → All (IsCutOf parts) cs
    → All (IsCutOf (part ∷ parts)) (extend_cuts part parts cs)
unfolding extend_cuts
extend_cuts-IsCutOf part parts [] h = (refl, tt)
extend_cuts-IsCutOf part parts ((front, back) ∷ cs) (h, hs) =
    (ap (◌∷◌ part) h, extend_cuts-IsCutOf part parts cs hs)

pub cuts-IsCutOf : (parts : List String) → All (IsCutOf parts) (cuts parts)
unfolding cuts
cuts-IsCutOf [] = (refl, tt)
cuts-IsCutOf (part ∷ parts) = extend_cuts-IsCutOf part parts (cuts parts) (cuts-IsCutOf parts)

Within-extend_cuts :
    (part : String) (parts front back : List String) (cs : List Cut)
    → Within (front, back) cs
    → Within (part ∷ front, back) (extend_cuts part parts cs)
unfolding extend_cuts
Within-extend_cuts part parts front back [] w = elim w [ ]
Within-extend_cuts part parts front back ((f, b) ∷ cs) (inl same) =
    inl (ap (λ c. (part ∷ c.0, c.1)) same)
Within-extend_cuts part parts front back ((f, b) ∷ cs) (inr later) =
    inr (Within-extend_cuts part parts front back cs later)

Within-extend_cuts_last :
    (part : String) (parts : List String) (cs : List Cut)
    → Within ([], part ∷ parts) (extend_cuts part parts cs)
unfolding extend_cuts
Within-extend_cuts_last part parts [] = inl refl
Within-extend_cuts_last part parts ((f, b) ∷ cs) = inr (Within-extend_cuts_last part parts cs)

pub Within-cuts : (front back : List String) → Within (front, back) (cuts (front ++ back))
unfolding cuts
Within-cuts [] [] = inl refl
Within-cuts [] (part ∷ back) = Within-extend_cuts_last part back (cuts back)
Within-cuts (part ∷ front) back =
    Within-extend_cuts part (front ++ back) front back (cuts (front ++ back))
      (Within-cuts front back)
