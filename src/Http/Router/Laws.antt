-- ===== src/Http/Router/Laws.antt =====
-- Which handler answers a request, inside which middleware, and with which path.
use mathlib.Core.List.{reverse, reverse-append}
use mathlib.Core.Option.{get_or}
use emulate.Prelude.{
  ℕ, ◌+◌, ◌%◌, ◌^◌, ◌<◌, ◌≡◌, ◌≢◌, ◌⊎◌, inl, inr, ◌==◌, Bool-cases, refl, ap, ◌∙◌, none, some, List,
  [], ◌∷◌, ◌++◌, String, string_eq, arith, All, Option-cases,
}
use text.Mathlib.TextEquality.{eq_iff}
use emulate.Http.Path.{normalize_path, has_path_prefix}
use emulate.Http.Path.Laws.{IsBelow, has_path_prefix-IsBelow, IsBelow-has_path_prefix}
use emulate.Http.Matching.{Params, Engine}
use emulate.Http.Router.Loops.{
  MissesGet, find_route-append, find_route-cases, find_get_route-cases, find_route-none,
  find_get_route-append,
}
use emulate.Http.Router.{
  Request, RequestId, given, numbered, HandlerFunc, Middleware, Route, Router, wrap_all, chain,
  request_id, find_route, find_get_route, match_route, select, serve_http,
}

number : RequestId → ℕ
number (given id) = 0
number (numbered n) = n

numbered_inj : {a b : ℕ} → numbered a ≡ numbered b → a ≡ b
unfolding number
numbered_inj e = ap number e

next-ne : (n : ℕ) → n < 2 ^ 64 → (n + 1) % 2 ^ 64 ≢ ((n + 1) % 2 ^ 64 + 1) % 2 ^ 64
next-ne n h = omega arith

module _ {R : Type 0} where
  wrap_all-append :
      (h : HandlerFunc R) (ms ns : List (Middleware R))
      → wrap_all h (ms ++ ns) ≡ wrap_all (wrap_all h ms) ns
  unfolding wrap_all
  wrap_all-append h [] ns = refl
  wrap_all-append h (m ∷ ms) ns = wrap_all-append (m h) ms ns

  -- A chain of two lists of middleware is the chain of the first list around that of the second,
  -- so what is registered first is the outermost and sees the request first.
  chain-append :
      (h : HandlerFunc R) (ms ns : List (Middleware R)) → chain h (ms ++ ns) ≡ chain (chain h ns) ms
  unfolding chain
  chain-append h ms ns =
      ap (wrap_all h) (reverse-append ms ns) ∙ wrap_all-append h (reverse ns) (reverse ms)

  pub chain-cons :
      (h : HandlerFunc R) (m : Middleware R) (ms : List (Middleware R))
      → chain h (m ∷ ms) ≡ m (chain h ms)
  unfolding chain
  chain-cons h m ms = chain-append h (m ∷ []) ms

  -- The handler answers the request with the parameters, inside all middleware.
  abbrev pub Answers : Engine → Router R → Request → HandlerFunc R → Params → Type 0
  Answers engine r req handler params =
      (serve_http engine r req).0
      ≡ chain handler r.middleware
          (record { request = req; params = params; request_id = (request_id r req).0 })

  module _ (engine : Engine) where
    serve_http-select :
        (r : Router R) (req : Request) (h : HandlerFunc R) (params : Params)
        → select engine r req ≡ (h, params)
        → (serve_http engine r req).0
          ≡ chain h r.middleware
              (record { request = req; params = params; request_id = (request_id r req).0 })
    unfolding serve_http
    serve_http-select r req h params e =
        ap
          (λ chosen.
            chain chosen.0 r.middleware
              (record { request = req; params = chosen.1; request_id = (request_id r req).0 }))
          e

    select-found :
        (r : Router R) (req : Request) (route : Route R) (params : Params)
        → find_route engine r.routes req.method req.path ≡ some (route, params)
        → select engine r req ≡ (route.handler, params)
    unfolding select
    select-found r req route params found = rw (found, select)

    select-unmatched :
        (r : Router R) (req : Request)
        → find_route engine r.routes req.method req.path ≡ none
        → (req.method ≡ "HEAD" → find_get_route engine r.routes req.path ≡ none)
        → select engine r req ≡ (get_or r.fallback r.not_found, [])
    unfolding select
    select-unmatched r req missed no_get =
        ground (arith, missed, no_get, eq_iff req.method "HEAD", Option-cases r.fallback)

    select-head :
        (r : Router R) (req : Request) (route : Route R) (params : Params)
        → req.method ≡ "HEAD"
        → find_route engine r.routes req.method req.path ≡ none
        → find_get_route engine r.routes req.path ≡ some (route, params)
        → select engine r req ≡ (route.handler, params)
    unfolding select
    select-head r req route params is_head missed found =
        rw (missed, select)
          (rw (found, select) (rw ((eq_iff req.method "HEAD").1 is_head, select) refl))

    -- A request is answered by the first registered route that matches it, inside all middleware
    -- and with the parameters of that match, whatever routes stand after it.
    pub serve_http-first :
        (r : Router R) (req : Request) (before after : List (Route R)) (route : Route R)
        (params : Params)
        → r.routes ≡ before ++ route ∷ after
        → All (λ other. match_route engine other req.method req.path ≡ none) before
        → match_route engine route req.method req.path ≡ some params
        → (serve_http engine r req).0
          ≡ chain route.handler r.middleware
              (record { request = req; params = params; request_id = (request_id r req).0 })
    unfolding serve_http
    serve_http-first r req before after route params listed missed matched =
        serve_http-select r req route.handler params (
          select-found r req route params (
            ap (λ routes. find_route engine routes req.method req.path) listed
            ∙ find_route-append engine before after route req.method req.path params missed
                matched))

    -- Every request is answered, inside all middleware, in one of three ways: by the first route
    -- that matches it; where no route does and it is a HEAD request, by the first route for GET that
    -- matches; and only where there is none of these by the fallback, or by the handler for 404
    -- where there is no fallback.
    pub serve_http-cases :
        (r : Router R) (req : Request)
        → ((before after : List (Route R)) × (route : Route R) × (params : Params) × (r.routes
              ≡ before ++ route ∷ after)
            × All (λ other. match_route engine other req.method req.path ≡ none) before
            × (match_route engine route req.method req.path ≡ some params)
            × Answers engine r req route.handler params)
          ⊎ ((before after : List (Route R)) × (route : Route R) × (params : Params) × All
                (λ other. match_route engine other req.method req.path ≡ none)
                r.routes
              × (req.method ≡ "HEAD")
              × (r.routes ≡ before ++ route ∷ after)
              × All (MissesGet engine req.path) before
              × (route.method ≡ "GET")
              × (match_route engine route "GET" req.path ≡ some params)
              × Answers engine r req route.handler params)
          ⊎ All (λ other. match_route engine other req.method req.path ≡ none) r.routes
            × ((req.method ≢ "HEAD") ⊎ All (MissesGet engine req.path) r.routes)
            × Answers engine r req (get_or r.fallback r.not_found) []
    serve_http-cases r req = elim (find_route-cases engine r.routes req.method req.path) [
      | inr (before, after, route, params, listed, missed, hit, found) ↦ inl (
        before,
        after,
        route,
        params,
        listed,
        missed,
        hit,
        serve_http-select r req route.handler params (select-found r req route params found),
      )
      | inl (nothing, missed) ↦ elim (Bool-cases (req.method == "HEAD")) [
        | inr other ↦
            let not_head : req.method ≢ "HEAD" =
              λ same. cc (other, (eq_iff req.method "HEAD").1 same) in
            inr (
              inr (
                missed,
                inl not_head,
                serve_http-select r req _ []
                    (select-unmatched r req nothing (λ same. absurd (not_head same))),
              ))
        | inl is_head ↦
            let head = (eq_iff req.method "HEAD").0 is_head in
            elim (find_get_route-cases engine r.routes req.path) [
              | inl (no_get, gets) ↦ inr (
                  inr (
                    missed,
                    inr gets,
                    serve_http-select r req _ [] (select-unmatched r req nothing (λ same. no_get)),
                  ))
              | inr (before, after, route, params, listed, others, is_get, hit, found) ↦ inr (
                  inl (
                    before,
                    after,
                    route,
                    params,
                    missed,
                    head,
                    listed,
                    others,
                    is_get,
                    hit,
                    serve_http-select r req route.handler params
                        (select-head r req route params head nothing found),
                  ))
            ]
      ]
    ]

    -- A HEAD request that no route matches is answered, inside all middleware, by the first route
    -- for GET that matches the path, with the parameters of that match and whatever routes stand
    -- after it.
    pub serve_http-head :
        (r : Router R) (req : Request) (before after : List (Route R)) (route : Route R)
        (params : Params)
        → req.method ≡ "HEAD"
        → All (λ other. match_route engine other req.method req.path ≡ none) r.routes
        → r.routes ≡ before ++ route ∷ after
        → All (MissesGet engine req.path) before
        → route.method ≡ "GET"
        → match_route engine route "GET" req.path ≡ some params
        → Answers engine r req route.handler params
    serve_http-head r req before after route params is_head missed listed others is_get hit =
        serve_http-select r req route.handler params (
          select-head r req route params is_head (find_route-none engine r.routes _ _ missed) (
            ap (λ routes. find_get_route engine routes req.path) listed
            ∙ find_get_route-append engine before after route req.path params others is_get hit))

    -- A route with a mount prefix, for the method or for every method, matches exactly the paths
    -- that are, once normalised, the prefix or the prefix followed by a slash and more, and all
    -- paths where the prefix is the root; it gives no parameters.
    pub match_route-mounted :
        (route : Route R) (method path : String)
        → (route.method ≡ "*") ⊎ (route.method ≡ method)
        → (route.mount_prefix ≢ "")
        → (match_route engine route method path ≡ some [])
            × IsBelow route.mount_prefix (normalize_path path)
          ⊎ (match_route engine route method path ≡ none)
            × (¬ IsBelow route.mount_prefix (normalize_path path))
    unfolding match_route
    match_route-mounted route method path allowed mounted =
        elim (Bool-cases (has_path_prefix route.mount_prefix (normalize_path path))) [
          | inl below ↦ inl (
            ground (
              arith,
              allowed,
              mounted,
              below,
              eq_iff route.method "*",
              eq_iff route.method method,
              eq_iff route.mount_prefix "",
            ),
            has_path_prefix-IsBelow _ _ below,
          )
          | inr outside ↦ inr (
            ground (
              arith,
              allowed,
              mounted,
              outside,
              eq_iff route.method "*",
              eq_iff route.method method,
              eq_iff route.mount_prefix "",
            ),
            λ below. cc (outside, IsBelow-has_path_prefix _ _ below),
          )
        ]

  -- Two requests in a row without the header X-Request-Id get different ids from a counter below
  -- 2 ^ 64, also where it wraps around.
  pub request_id-distinct :
      (r : Router R) (first second : Request)
      → r.request_next < 2 ^ 64
      → first.header_id ≡ ""
      → second.header_id ≡ ""
      → (request_id r first).0 ≢ (request_id (request_id r first).1 second).0
  unfolding request_id
  request_id-distinct r first second bound no_first no_second =
      rw ((eq_iff first.header_id "").1 no_first, request_id)
        (rw ((eq_iff second.header_id "").1 no_second, request_id)
          (λ same. next-ne r.request_next bound (numbered_inj same)))
