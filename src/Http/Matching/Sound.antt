-- ===== src/Http/Matching/Sound.antt =====
-- `matchSegments` decides `Matches`.
use Prim.Native.String.{String}
use emulate.Prelude.{
  ◌≡◌, ◌≢◌, refl, ap, ◌↔◌, ◌⊎◌, inl, inr, Bool, true, false, Option, none, some, List, [], ◌∷◌,
  ◌++◌, string_eq, ◌==◌, arith, All, Bool-cases,
}
use text.Mathlib.TextEquality.{eq_iff}
use emulate.Prelude.Split.{join}
use emulate.Prelude.Assoc.{put}
use emulate.Http.Matching.{
  Segment, Params, Engine, match_param, is_greedy, cuts, bind_param, try_cuts, match_part,
  match_segment, match_segments,
}
use emulate.Http.Matching.Spec.{
  Matches, done, wildcard, many, one, equal, Cut, Within, IsCutOf, cuts-IsCutOf, Within-cuts,
}

abbrev Matcher : Type 0
Matcher = Params → Bool × Params

bind_param_sound :
    (rest : Matcher) (seg : Segment) (o : Option String) (params : Params)
    → (bind_param rest seg o params).0 ≡ true
    → (value : String) × (o ≡ some value) × ((rest (put seg.param value params)).0 ≡ true)
unfolding bind_param
bind_param_sound rest seg none params h = cc
bind_param_sound rest seg (some value) params h = (value, refl, ground arith)

bind_param_complete :
    (rest : Matcher) (seg : Segment) (value : String) (params : Params)
    → ((ps : Params) → (rest ps).0 ≡ true)
    → (bind_param rest seg (some value) params).0 ≡ true
unfolding bind_param
bind_param_complete rest seg value params h = ground (arith, h (put seg.param value params))

module _ (engine : Engine) (rest : List String → Matcher) (seg : Segment) where
  try_cuts_sound :
      (parts : List String) (cs : List Cut) (params : Params)
      → All (IsCutOf parts) cs
      → (try_cuts engine rest seg cs params).0 ≡ true
      → (front back : List String) × (value : String) × (ps : Params) × (front ++ back ≡ parts)
        × (match_param engine seg (join "/" front) ≡ some value)
        × ((rest back ps).0 ≡ true)
  unfolding try_cuts
  try_cuts_sound parts [] params h e = cc
  try_cuts_sound parts ((front, back) ∷ cs) params (h, hs) e =
      let tried = bind_param (rest back) seg (match_param engine seg (join "/" front)) params in
      elim (Bool-cases tried.0) [
        | inl matched ↦
            let (value, bound, rest_matched) =
              bind_param_sound (rest back) seg (match_param engine seg (join "/" front)) params
                matched in
            (front, back, value, put seg.param value params, h, bound, rest_matched)
        | inr failed ↦ try_cuts_sound parts cs tried.1 hs (ground arith)
      ]

  try_cuts_complete :
      (front back : List String) (value : String) (cs : List Cut) (params : Params)
      → Within (front, back) cs
      → match_param engine seg (join "/" front) ≡ some value
      → ((ps : Params) → (rest back ps).0 ≡ true)
      → (try_cuts engine rest seg cs params).0 ≡ true
  unfolding try_cuts
  try_cuts_complete front back value [] params w m h = elim w [ ]
  try_cuts_complete front back value ((f, b) ∷ cs) params (inl same) m h =
      let f_eq : front ≡ f = ap (λ (c : Cut). c.0) same in
      let b_eq : back ≡ b = ap (λ (c : Cut). c.1) same in
      let found : (bind_param (rest b) seg (match_param engine seg (join "/" f)) params).0 ≡ true =
        rw (← f_eq, ← b_eq, m) (bind_param_complete (rest back) seg value params h) in
      ground arith
  try_cuts_complete front back value ((f, b) ∷ cs) params (inr later) m h =
      let tried = bind_param (rest b) seg (match_param engine seg (join "/" f)) params in
      ground (arith, try_cuts_complete front back value cs tried.1 later m h)

module _ (engine : Engine) where
  match_part_sound :
      (rest : Matcher) (seg : Segment) (part : String) (params : Params)
      → (match_part engine rest seg part params).0 ≡ true
      → (ps : Params) × ((rest ps).0 ≡ true)
        × (((seg.param ≢ "") × (value : String) × (match_param engine seg part ≡ some value))
            ⊎ ((seg.param ≡ "") × (seg.literal ≡ part)))
  unfolding match_part
  match_part_sound rest seg part params h = elim (Bool-cases (seg.param == "")) [
    | inl unnamed ↦ elim (Bool-cases (seg.literal == part)) [
      | inl same ↦ (
        params,
        rw (unnamed, same, match_part) at h,
        inr ((eq_iff seg.param "").0 unnamed, (eq_iff seg.literal part).0 same),
      )
      | inr other ↦ cc (rw (unnamed, other, match_part) at h)
    ]
    | inr named ↦
        let (value, bound, ok) =
          bind_param_sound rest seg (match_param engine seg part) params
            (rw (named, match_part) at h) in
        (
          put seg.param value params,
          ok,
          inl ((λ e. cc (named, (eq_iff seg.param "").1 e)), value, bound),
        )
  ]

  module _ (seg : Segment) (segs : List Segment) where
    -- After the tests for a wildcard and for a regular expression.
    single_sound :
        (parts : List String) (params : Params)
        → ((back : List String) (ps : Params)
            → (match_segments engine segs back ps).0 ≡ true
            → Matches engine segs back)
        → (seg.literal == "*") ≡ false
        → is_greedy seg ≡ false
        → (match_segment engine (match_segments engine segs) seg parts params).0 ≡ true
        → Matches engine (seg ∷ segs) parts
    unfolding match_segment
    single_sound [] params rest plain single h = cc (rw (plain, single, match_segment) at h)
    single_sound (part ∷ back) params rest plain single h =
        let (ps, ok, how) =
          match_part_sound (match_segments engine segs back) seg part params
            (rw (plain, single, match_segment) at h) in
        elim how [
          | inl (named, value, bound) ↦ one part value single named bound (rest back ps ok)
          | inr (unnamed, same) ↦ equal part unnamed same (rest back ps ok)
        ]

    segment_sound :
        (parts : List String) (params : Params)
        → ((back : List String) (ps : Params)
            → (match_segments engine segs back ps).0 ≡ true
            → Matches engine segs back)
        → (match_segment engine (match_segments engine segs) seg parts params).0 ≡ true
        → Matches engine (seg ∷ segs) parts
    unfolding match_segment
    segment_sound parts params rest h = elim (Bool-cases (seg.literal == "*")) [
      | inl wild ↦ wildcard ((eq_iff seg.literal "*").0 wild)
      | inr plain ↦ elim (Bool-cases (is_greedy seg)) [
        | inl greedy ↦
            let (front, back, value, ps, made, bound, ok) =
              try_cuts_sound engine (match_segments engine segs) seg parts (cuts parts) params
                (cuts-IsCutOf parts) (rw (plain, greedy, match_segment) at h) in
            many front back value greedy made bound (rest back ps ok)
        | inr single ↦ single_sound parts params rest plain single h
      ]
    ]

  match_segments_sound :
      (segs : List Segment) (parts : List String) (params : Params)
      → (match_segments engine segs parts params).0 ≡ true
      → Matches engine segs parts
  unfolding match_segments
  match_segments_sound [] [] params h = done
  match_segments_sound [] (part ∷ parts) params h = cc
  match_segments_sound (seg ∷ segs) parts params h =
      segment_sound seg segs parts params (match_segments_sound segs) h

  -- A parameter that is named and bound lets the rest of the pattern decide.
  match_part_complete :
      (rest : Matcher) (seg : Segment) (part : String) (params : Params)
      → ((ps : Params) → (rest ps).0 ≡ true)
      → ((seg.param ≢ "") × (value : String) × (match_param engine seg part ≡ some value))
        ⊎ ((seg.param ≡ "") × (seg.literal ≡ part))
      → (match_part engine rest seg part params).0 ≡ true
  unfolding match_part
  match_part_complete rest seg part params h (inl (named, value, bound)) =
      rw bound (ground (arith, eq_iff seg.param "", bind_param_complete rest seg value params h))
  match_part_complete rest seg part params h (inr (unnamed, same)) =
      ground (arith, eq_iff seg.param "", eq_iff seg.literal part, h params)

  match_segments_complete :
      {segs : List Segment} {parts : List String}
      → Matches engine segs parts
      → (params : Params) → (match_segments engine segs parts params).0 ≡ true
  unfolding match_segments match_segment
  match_segments_complete done params = refl
  match_segments_complete (wildcard {seg} h) params = ground (arith, eq_iff seg.literal "*")
  match_segments_complete (many {seg} {segs} {parts} front back value greedy made bound more)
        params =
      elim (Bool-cases (seg.literal == "*")) [
        | inl wild ↦ rw (wild, match_segment) refl
        | inr plain ↦
            rw (plain, greedy, match_segment)
              (try_cuts_complete engine (match_segments engine segs) seg front back value
                (cuts parts) params (rw made at (Within-cuts front back)) bound
                (match_segments_complete more))
      ]
  match_segments_complete (one {seg} {segs} {back} part value single named bound more) params =
      elim (Bool-cases (seg.literal == "*")) [
        | inl wild ↦ rw (wild, match_segment) refl
        | inr plain ↦
            rw (plain, single, match_segment)
              (match_part_complete (match_segments engine segs back) seg part params
                (match_segments_complete more) (inl (named, value, bound)))
      ]
  match_segments_complete (equal {seg} {segs} {back} part unnamed same more) params =
      let single : is_greedy seg ≡ false = ground (arith, eq_iff seg.param "") in
      elim (Bool-cases (seg.literal == "*")) [
        | inl wild ↦ rw (wild, match_segment) refl
        | inr plain ↦
            rw (plain, single, match_segment)
              (match_part_complete (match_segments engine segs back) seg part params
                (match_segments_complete more) (inr (unnamed, same)))
      ]

  -- The matcher says yes exactly when the pattern matches the parts, whatever parameters it starts
  -- with: no backtracking is missed and no deleted parameter changes the answer.
  pub match_segments_iff :
      (segs : List Segment) (parts : List String) (params : Params)
      → ((match_segments engine segs parts params).0 ≡ true) ↔ Matches engine segs parts
  match_segments_iff segs parts params =
      (match_segments_sound segs parts params, λ m. match_segments_complete m params)
