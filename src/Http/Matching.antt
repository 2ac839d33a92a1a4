-- ===== src/Http/Matching.antt =====
-- Patterns in internal/core/http/router.go: `parseSegments`, `parseParamSegment`,
-- `matchSegments`, `setMatchedParam` and `matchParam`. The map of parameters that the loop writes
-- and deletes in is passed along and returned.
pub mod Spec
pub mod Sound
use Prim.Native.Char.{code}
use Prim.Native.String
use Prim.Native.String.{String}
use emulate.Prelude.{
  Bool, true, false, Option, none, some, List, [], ◌∷◌, ◌++◌, ◌&&◌, ◌||◌, not, map, string_eq, ◌==◌,
  if◌then◌else◌,
}
use emulate.Prelude.Assoc.{Assoc, put, erase}
use emulate.Prelude.Text.{has_prefix, trim_prefix}
use emulate.Prelude.Split.{join, cut_at, ends_with, drop_last}
use emulate.Http.Path.{normalize_path, split_path}

-- A regular expression is kept as its text; `Engine` says what it matches.
pub record Segment : Type 0 where
  pub literal : String
  pub param : String
  pub regex : Option String

-- What the Go library computes: whether a regular expression matches a text, and
-- `url.PathUnescape`, with none for its error.
pub record Engine : Type 0 where
  pub matches_text : String → String → Bool
  pub path_unescape : String → Option String

abbrev pub Params : Type 0
Params = Assoc String String

abbrev pub literal_segment : String → Segment
literal_segment text = record { literal = text; param = ""; regex = none }

abbrev pub param_segment : String → Option String → Segment
param_segment name regex = record { literal = ""; param = name; regex = regex }

-- `parseParamSegment`, on the name behind the colon
unfoldable pub param_of_name : String → Segment
param_of_name name = elim (cut_at b'{' name) [
  | none ↦ param_segment name none
  | some (front, rest) ↦
      if front == "" || not (ends_with b'}' name)
      then param_segment name none
      else param_segment front (some (String.◌++◌ "^" (String.◌++◌ (drop_last rest) "$")))
]

-- A round of the loop of `parseSegments`.
unfoldable pub segment_of_part : String → Segment
unfolding param_of_name
segment_of_part part =
    let name = trim_prefix part ":" in
    let inner = trim_prefix part "{" in
    if part == "*"
    then literal_segment "*"
    else if has_prefix part ":" && not (name == "")
    then param_of_name name
    else if has_prefix part "{" && ends_with b'}' part && not (inner == "}")
    then param_segment (drop_last inner) none
    else literal_segment part

-- `parseSegments`
unfoldable pub parse_segments : String → List Segment
unfolding segment_of_part
parse_segments pattern = map segment_of_part (split_path (normalize_path pattern))

-- A part in front of each cut, and the cut before it.
extend_cuts :
    String → List String → List (List String × List String) → List (List String × List String)
extend_cuts part parts [] = ([], part ∷ parts) ∷ []
extend_cuts part parts ((front, back) ∷ more) = (part ∷ front, back) ∷ extend_cuts part parts more

-- The ways to cut the parts in two, the longest front first.
unfoldable pub cuts : List String → List (List String × List String)
unfolding extend_cuts
cuts [] = ([], []) ∷ []
cuts (part ∷ parts) = extend_cuts part parts (cuts parts)

-- The parameter of the segment takes any number of parts.
abbrev pub is_greedy : Segment → Bool
is_greedy seg = not (seg.param == "") && elim seg.regex [ none ↦ false | some regex ↦ true ]

-- The parameters after `setMatchedParam`, and then the rest of the pattern; on a failure of the
-- rest the parameter is deleted again.
unfoldable pub bind_param :
    (Params → Bool × Params) → Segment → Option String → Params → Bool × Params
bind_param rest seg none params = (false, params)
bind_param rest seg (some value) params =
    let (matched, params') = rest (put seg.param value params) in
    if matched then (true, params') else (false, erase seg.param params')

module _ (engine : Engine) where
  -- The value, unescaped if that is possible.
  decoded : String → String
  decoded value = elim (engine.path_unescape value) [ none ↦ value | some text ↦ text ]

  -- `matchParam`
  unfoldable pub match_param : Segment → String → Option String
  unfolding decoded
  match_param seg value = elim seg.regex [
    | none ↦ some (decoded value)
    | some regex ↦ if engine.matches_text regex value then some (decoded value) else none
  ]

  -- The loop over `end` for a parameter with a regular expression.
  unfoldable pub try_cuts :
      (List String → Params → Bool × Params)
      → Segment
      → List (List String × List String)
      → Params
      → Bool × Params
  unfolding bind_param
  try_cuts rest seg [] params = (false, params)
  try_cuts rest seg ((front, back) ∷ more) params =
      let (matched, params') =
        bind_param (rest back) seg (match_param seg (join "/" front)) params in
      let later = try_cuts rest seg more params' in if matched then (true, params') else later

  -- The tests of `matchSegments` on one part.
  unfoldable pub match_part : (Params → Bool × Params) → Segment → String → Params → Bool × Params
  unfolding bind_param
  match_part rest seg part params =
      let skip = rest params in
      if not (seg.param == "")
      then bind_param rest seg (match_param seg part) params
      else if seg.literal == part
      then skip
      else (false, params)

  -- The body of `matchSegments` where a segment is left, with the call on the segments after it.
  unfoldable pub match_segment :
      (List String → Params → Bool × Params) → Segment → List String → Params → Bool × Params
  match_segment rest seg parts params =
      if seg.literal == "*"
      then (true, params)
      else if is_greedy seg
      then try_cuts rest seg (cuts parts) params
      else elim parts [
        | [] ↦ (false, params)
        | part ∷ back ↦ match_part (rest back) seg part params
      ]

  -- `matchSegments`, on the segments and the parts from the two indices on
  unfoldable pub match_segments : List Segment → List String → Params → Bool × Params
  match_segments [] [] params = (true, params)
  match_segments [] (part ∷ parts) params = (false, params)
  match_segments (seg ∷ segs) parts params = match_segment (match_segments segs) seg parts params
