-- ===== src/Http/Router/Loops.antt =====
-- The two loops of `ServeHTTP` in internal/core/http/router.go, each of which finds the first route
-- that matches.
use emulate.Prelude.{
  ◌≡◌, ◌≢◌, ◌⊎◌, inl, inr, ◌==◌, Bool-cases, refl, ap, ◌∙◌, none, some, List, [], ◌∷◌, ◌++◌, String,
  string_eq, arith, All, Option-cases,
}
use text.Mathlib.TextEquality.{eq_iff}
use emulate.Http.Matching.{Params, Engine}
use emulate.Http.Router.{Route, find_route, find_get_route, match_route}

module _ {R : Type 0} where
  -- The route is not for GET, or does not match the path.
  abbrev pub MissesGet : Engine → String → Route R → Type 0
  MissesGet engine path other =
      (other.method ≢ "GET") ⊎ (match_route engine other "GET" path ≡ none)

  module _ (engine : Engine) where
    pub find_route-append :
        (before after : List (Route R)) (route : Route R) (method path : String) (params : Params)
        → All (λ r. match_route engine r method path ≡ none) before
        → match_route engine route method path ≡ some params
        → find_route engine (before ++ route ∷ after) method path ≡ some (route, params)
    unfolding find_route
    find_route-append [] after route method path params none_before matched =
        rw (matched, find_route)
    find_route-append (r ∷ before) after route method path params (missed, h) matched =
        rw (missed, find_route) (find_route-append before after route method path params h matched)

    -- The first loop finds the first route that matches, or there is none.
    pub find_route-cases :
        (routes : List (Route R)) (method path : String)
        → (find_route engine routes method path ≡ none)
            × All (λ other. match_route engine other method path ≡ none) routes
          ⊎ (before after : List (Route R)) × (route : Route R) × (params : Params) × (routes
              ≡ before ++ route ∷ after)
            × All (λ other. match_route engine other method path ≡ none) before
            × (match_route engine route method path ≡ some params)
            × (find_route engine routes method path ≡ some (route, params))
    unfolding find_route
    find_route-cases [] method path = inl (refl, tt)
    find_route-cases (r ∷ routes) method path =
        elim (Option-cases (match_route engine r method path)) [
          | inl missed ↦ elim (find_route-cases routes method path) [
            | inl (nothing, others) ↦ inl (rw (missed, find_route) nothing, (missed, others))
            | inr (before, after, route, params, listed, others, hit, found) ↦ inr (
              r ∷ before,
              after,
              route,
              params,
              ap (λ l. r ∷ l) listed,
              (missed, others),
              hit,
              rw (missed, find_route) found,
            )
          ]
          | inr (params, hit) ↦
              inr ([], routes, r, params, refl, tt, hit, rw (hit, find_route) refl)
        ]

    -- The second loop finds the first route for GET that matches, or there is none.
    abbrev pub GetFound : List (Route R) → String → Type 0
    GetFound routes path =
        (find_get_route engine routes path ≡ none) × All (MissesGet engine path) routes
        ⊎ (before after : List (Route R)) × (route : Route R) × (params : Params) × (routes
            ≡ before ++ route ∷ after)
          × All (MissesGet engine path) before
          × (route.method ≡ "GET")
          × (match_route engine route "GET" path ≡ some params)
          × (find_get_route engine routes path ≡ some (route, params))

    find_get_route-later :
        (r : Route R) (routes : List (Route R)) (path : String)
        → MissesGet engine path r
        → find_get_route engine (r ∷ routes) path ≡ find_get_route engine routes path
        → GetFound routes path
        → GetFound (r ∷ routes) path
    find_get_route-later r routes path missed step (inl (nothing, others)) =
        inl (step ∙ nothing, (missed, others))
    find_get_route-later r routes path missed step
          (inr (before, after, route, params, listed, others, is_get, hit, found)) =
        inr (
          r ∷ before,
          after,
          route,
          params,
          ap (λ l. r ∷ l) listed,
          (missed, others),
          is_get,
          hit,
          step ∙ found,
        )

    pub find_get_route-cases : (routes : List (Route R)) (path : String) → GetFound routes path
    unfolding find_get_route
    find_get_route-cases [] path = inl (refl, tt)
    find_get_route-cases (r ∷ routes) path = elim (Bool-cases (r.method == "GET")) [
      | inl is_get ↦ elim (Option-cases (match_route engine r "GET" path)) [
        | inl missed ↦
            find_get_route-later r routes path (inr missed)
              (rw (is_get, missed, find_get_route) refl) (find_get_route-cases routes path)
        | inr (params, hit) ↦ inr (
          [],
          routes,
          r,
          params,
          refl,
          tt,
          (eq_iff r.method "GET").0 is_get,
          hit,
          rw (is_get, hit, find_get_route) refl,
        )
      ]
      | inr other ↦
          find_get_route-later r routes path
            (inl (λ same. cc (other, (eq_iff r.method "GET").1 same)))
            (rw (other, find_get_route) refl) (find_get_route-cases routes path)
    ]

    pub find_route-none :
        (routes : List (Route R)) (method path : String)
        → All (λ other. match_route engine other method path ≡ none) routes
        → find_route engine routes method path ≡ none
    unfolding find_route
    find_route-none [] method path h = refl
    find_route-none (r ∷ routes) method path (missed, h) =
        rw (missed, find_route) (find_route-none routes method path h)

    pub find_get_route-append :
        (before after : List (Route R)) (route : Route R) (path : String) (params : Params)
        → All (MissesGet engine path) before
        → route.method ≡ "GET"
        → match_route engine route "GET" path ≡ some params
        → find_get_route engine (before ++ route ∷ after) path ≡ some (route, params)
    unfolding find_get_route
    find_get_route-append [] after route path params h is_get hit =
        rw ((eq_iff route.method "GET").1 is_get, hit, find_get_route) refl
    find_get_route-append (r ∷ before) after route path params (missed, h) is_get hit =
        let later = find_get_route-append before after route path params h is_get hit in
        ground (arith, missed, eq_iff r.method "GET", later)
