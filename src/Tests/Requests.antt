-- ===== src/Tests/Requests.antt =====
-- The theorems of the router at concrete requests.
use Prim.Native.String
use emulate.Prelude.{
  ◌≡◌, ◌≢◌, refl, ◌↔◌, ◌⊎◌, inl, none, some, true, List, [], ◌∷◌, ◌++◌, All, String, string_eq,
  arith, ◌<◌, ◌^◌,
}
use emulate.Prelude.Text.{has_prefix, trim_prefix}
use emulate.Prelude.Split.{join}
use emulate.Http.Path.{normalize_path, split_path, strip_prefix, has_path_prefix}
use emulate.Http.Path.Laws.{
  IsRooted, IsBelow, strip_prefix-mounted, join-split_path, normalize_path_idem,
}
use emulate.Http.Matching.{Engine, Params, parse_segments, match_segments}
use emulate.Http.Matching.Spec.{Matches}
use emulate.Http.Matching.Sound.{match_segments_iff}
use emulate.Http.Router.{
  Request, HandlerFunc, Middleware, Route, Router, chain, request_id, match_route, serve_http,
}
use emulate.Http.Router.Loops.{MissesGet}
use emulate.Http.Router.Laws.{
  Answers, serve_http-first, serve_http-cases, serve_http-head, match_route-mounted,
  request_id-distinct,
}

abbrev engine : Engine
engine = record { matches_text = λ pattern value. true; path_unescape = λ value. some value }

abbrev not_found : HandlerFunc String
not_found c = "not found"

abbrev list_users : HandlerFunc String
list_users c = "users"

abbrev logged : Middleware String
logged handler c = String.◌++◌ "log " (handler c)

abbrev timed : Middleware String
timed handler c = String.◌++◌ "time " (handler c)

-- A router that serves what it mounts under /users.
abbrev users : Route String
users = record {
  method = "*";
  pattern = "/users";
  segments = [];
  mount_prefix = "/users";
  handler = list_users;
}

abbrev users_get : Route String
users_get = record users { method = "GET" }

abbrev other_get : Route String
other_get = record users { method = "GET"; mount_prefix = "/other" }

abbrev router : Router String
router = record {
  routes = other_get ∷ users ∷ [];
  middleware = logged ∷ [];
  fallback = none;
  not_found = not_found;
  request_next = 0;
}

abbrev router_get : Router String
router_get = record router { routes = users_get ∷ [] }

abbrev empty : Router String
empty = record router { routes = [] }

abbrev prefix : String
prefix = "/users"

abbrev path : String
path = "/users/1"

abbrev root : String
root = "/"

abbrev none_given : String
none_given = ""

abbrev get_method : String
get_method = "GET"

abbrev head_method : String
head_method = "HEAD"

abbrev request : Request
request = record { method = "GET"; path = "/users/1"; raw_path = ""; header_id = "" }

abbrev head : Request
head = record request { method = "HEAD" }

other_misses : match_route engine other_get "GET" "/users/1" ≡ none
unfolding match_route normalize_path has_prefix has_path_prefix trim_prefix
other_misses = refl

users_hits : match_route engine users "GET" "/users/1" ≡ some []
unfolding match_route normalize_path has_prefix has_path_prefix trim_prefix
users_hits = refl

serve_http-first_example :
    (serve_http engine router request).0
    ≡ chain list_users
        (logged ∷ [])
        (record { request = request; params = []; request_id = (request_id router request).0 })
serve_http-first_example =
    serve_http-first engine router request (other_get ∷ []) [] users [] refl (other_misses, tt)
      users_hits

serve_http-cases_example :
    ((before after : List (Route String)) × (route : Route String) × (params : Params)
      × (router_get.routes ≡ before ++ route ∷ after)
      × All (λ other. match_route engine other "HEAD" "/users/1" ≡ none) before
      × (match_route engine route "HEAD" "/users/1" ≡ some params)
      × Answers engine router_get head route.handler params)
    ⊎ ((before after : List (Route String)) × (route : Route String) × (params : Params) × All
          (λ other. match_route engine other "HEAD" "/users/1" ≡ none)
          router_get.routes
        × (head.method ≡ "HEAD")
        × (router_get.routes ≡ before ++ route ∷ after)
        × All (MissesGet engine "/users/1") before
        × (route.method ≡ "GET")
        × (match_route engine route "GET" "/users/1" ≡ some params)
        × Answers engine router_get head route.handler params)
    ⊎ All (λ other. match_route engine other "HEAD" "/users/1" ≡ none) router_get.routes
      × ((head.method ≢ "HEAD") ⊎ All (MissesGet engine "/users/1") router_get.routes)
      × Answers engine router_get head not_found []
serve_http-cases_example = serve_http-cases engine router_get head

head_missed : match_route engine users_get "HEAD" "/users/1" ≡ none
unfolding match_route normalize_path has_prefix has_path_prefix trim_prefix
head_missed = refl

get_hits : match_route engine users_get "GET" "/users/1" ≡ some []
unfolding match_route normalize_path has_prefix has_path_prefix trim_prefix
get_hits = refl

serve_http-head_example : Answers engine router_get head list_users []
serve_http-head_example =
    serve_http-head engine router_get head [] [] users_get [] refl (head_missed, tt) refl tt refl
      get_hits

mounted : prefix ≢ none_given
mounted e = cc

match_route-mounted_example :
    (match_route engine users "GET" "/users/1" ≡ some [])
      × IsBelow "/users" (normalize_path "/users/1")
    ⊎ (match_route engine users "GET" "/users/1" ≡ none)
      × (¬ IsBelow "/users" (normalize_path "/users/1"))
match_route-mounted_example = match_route-mounted engine users "GET" "/users/1" (inl refl) mounted

zero_below : 0 < 2 ^ 64
zero_below = omega arith

request_id-distinct_example :
    (request_id router request).0 ≢ (request_id (request_id router request).1 head).0
request_id-distinct_example = request_id-distinct router request head zero_below refl refl

users-ne-root : prefix ≢ root
users-ne-root e = cc

below : has_path_prefix "/users" "/users/1" ≡ true
unfolding has_path_prefix has_prefix trim_prefix
below = refl

strip_prefix-mounted_example :
    ((path ≡ prefix) × (strip_prefix "/users" "/users/1" ≡ "/"))
    ⊎ (IsRooted (strip_prefix "/users" "/users/1")
        × (String.◌++◌ "/users" (strip_prefix "/users" "/users/1") ≡ path))
strip_prefix-mounted_example = strip_prefix-mounted "/users" "/users/1" users-ne-root below

join-split_path_example :
    String.◌++◌ "/" (join "/" (split_path "users/1")) ≡ normalize_path "users/1"
join-split_path_example = join-split_path "users/1"

normalize_path_idem_example :
    IsRooted (normalize_path "users")
    × (normalize_path (normalize_path "users") ≡ normalize_path "users")
normalize_path_idem_example = normalize_path_idem "users"

match_segments_iff_example :
    ((match_segments engine (parse_segments "/users/{id}") ("users" ∷ "1" ∷ []) []).0 ≡ true)
    ↔ Matches engine (parse_segments "/users/{id}") ("users" ∷ "1" ∷ [])
match_segments_iff_example =
    match_segments_iff engine (parse_segments "/users/{id}") ("users" ∷ "1" ∷ []) []
