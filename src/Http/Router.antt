-- ===== src/Http/Router.antt =====
-- `Router` of internal/core/http/router.go: registration, `route.match`, `chain`, `requestID` and
-- `ServeHTTP`. A handler is a function from its context to a response of any type `R`; the
-- recovery from a panic in a handler is left out, since a function has none.
pub mod Loops
pub mod Laws
use emulate.Prelude.{
  ℕ, ◌+◌, ◌%◌, ◌^◌, Bool, true, false, Option, none, some, List, [], ◌∷◌, ◌++◌, ◌&&◌, not, String,
  string_eq, ◌==◌, if◌then◌else◌,
}
use mathlib.Core.List.{reverse}
use emulate.Http.Path.{normalize_path, split_path, strip_prefix, has_path_prefix}
use emulate.Http.Matching.{Segment, Params, Engine, parse_segments, match_segments}

-- What the router reads of an `http.Request`; `header_id` is the header X-Request-Id.
pub record Request : Type 0 where
  pub method : String
  pub path : String
  pub raw_path : String
  pub header_id : String

-- The id of a request: the header's, or `req_` and a number.
pub data RequestId : Type 0 where
  given : String → RequestId
  numbered : ℕ → RequestId

pub record Context : Type 0 where
  pub request : Request
  pub params : Params
  pub request_id : RequestId

abbrev pub HandlerFunc : Type 0 → Type 0
HandlerFunc R = Context → R

abbrev pub Middleware : Type 0 → Type 0
Middleware R = HandlerFunc R → HandlerFunc R

pub record Route (R : Type 0) : Type 0 where
  pub method : String
  pub pattern : String
  pub segments : List Segment
  pub mount_prefix : String
  pub handler : HandlerFunc R

pub record Router (R : Type 0) : Type 0 where
  pub routes : List (Route R)
  pub middleware : List (Middleware R)
  pub fallback : Option (HandlerFunc R)
  pub not_found : HandlerFunc R
  pub request_next : ℕ

module _ {R : Type 0} where
  -- `NewRouter`, with the handler that answers 404
  pub new_router : HandlerFunc R → Router R
  new_router not_found = record {
    routes = [];
    middleware = [];
    fallback = none;
    not_found = not_found;
    request_next = 0;
  }

  -- `Use`
  pub use_middleware : Router R → List (Middleware R) → Router R
  use_middleware r ms = record r { middleware = r.middleware ++ ms }

  -- `Handle`, with `strings.ToUpper`
  unfoldable pub handle : (String → String) → Router R → String → String → HandlerFunc R → Router R
  handle to_upper r method pattern handler = record r {
    routes =
        r.routes
        ++ record {
          method = to_upper method;
          pattern = normalize_path pattern;
          segments = parse_segments pattern;
          mount_prefix = "";
          handler = handler;
        }
          ∷ [];
  }

  -- The handler of `Mount`: the request below the prefix.
  unfoldable pub mount_handler : String → (Request → R) → HandlerFunc R
  mount_handler clean_prefix handler c = handler (record c.request {
    path = strip_prefix clean_prefix c.request.path;
    raw_path =
        if c.request.raw_path == ""
        then c.request.raw_path
        else strip_prefix clean_prefix c.request.raw_path;
  })

  -- `Mount`
  unfoldable pub mount : Router R → String → (Request → R) → Router R
  unfolding mount_handler
  mount r prefix handler =
      let clean_prefix = normalize_path prefix in
      record r {
        routes =
            r.routes
            ++ record {
              method = "*";
              pattern = clean_prefix;
              segments = [];
              mount_prefix = clean_prefix;
              handler = mount_handler clean_prefix handler;
            }
              ∷ [];
      }

  -- `Fallback`
  pub set_fallback : Router R → HandlerFunc R → Router R
  set_fallback r handler = record r { fallback = some handler }

  -- `NotFound`
  pub set_not_found : Router R → HandlerFunc R → Router R
  set_not_found r handler = record r { not_found = handler }

  -- The loop of `chain`, from the last middleware to the first.
  wrap_all : HandlerFunc R → List (Middleware R) → HandlerFunc R
  wrap_all handler [] = handler
  wrap_all handler (m ∷ ms) = wrap_all (m handler) ms

  -- `chain`
  unfoldable pub chain : HandlerFunc R → List (Middleware R) → HandlerFunc R
  unfolding wrap_all
  chain handler middleware = wrap_all handler (reverse middleware)

  -- `requestID`: the id, and the counter after it
  unfoldable pub request_id : Router R → Request → RequestId × Router R
  request_id r req =
      let next = (r.request_next + 1) % 2 ^ 64 in
      if req.header_id == ""
      then (numbered next, record r { request_next = next })
      else (given req.header_id, r)

  module _ (engine : Engine) where
    -- `route.match`
    unfoldable pub match_route : Route R → String → String → Option Params
    match_route route method request_path =
        let path = normalize_path request_path in
        let (matched, params) = match_segments engine route.segments (split_path path) [] in
        if not (route.method == "*") && not (route.method == method)
        then none
        else if not (route.mount_prefix == "")
        then (if has_path_prefix route.mount_prefix path then some [] else none)
        else if matched
        then some params
        else none

    -- The first loop of `ServeHTTP`.
    unfoldable pub find_route : List (Route R) → String → String → Option (Route R × Params)
    find_route [] method path = none
    find_route (route ∷ routes) method path =
        let later = find_route routes method path in
        elim (match_route route method path) [ none ↦ later | some params ↦ some (route, params) ]

    -- The second loop, on the routes for GET, of a request for HEAD.
    unfoldable pub find_get_route : List (Route R) → String → Option (Route R × Params)
    find_get_route [] path = none
    find_get_route (route ∷ routes) path =
        let later = find_get_route routes path in
        if not (route.method == "GET") then later else elim (match_route route "GET" path) [
          | none ↦ later
          | some params ↦ some (route, params)
        ]

    -- The handler that `ServeHTTP` runs inside the middleware, and the parameters that it gets.
    unfoldable pub select : Router R → Request → HandlerFunc R × Params
    select r req =
        let unmatched : HandlerFunc R × Params = elim r.fallback [
          | none ↦ (r.not_found, [])
          | some handler ↦ (handler, [])
        ] in
        let head : HandlerFunc R × Params = elim (find_get_route r.routes req.path) [
          | none ↦ unmatched
          | some (route, params) ↦ (route.handler, params)
        ] in
        elim (find_route r.routes req.method req.path) [
          | none ↦ if req.method == "HEAD" then head else unmatched
          | some (route, params) ↦ (route.handler, params)
        ]

    -- `ServeHTTP`
    unfoldable pub serve_http : Router R → Request → R × Router R
    serve_http r req =
        let (id, r') = request_id r req in
        let (handler, params) = select r req in
        (
          chain handler r.middleware (record { request = req; params = params; request_id = id }),
          r',
        )
