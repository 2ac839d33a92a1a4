-- ===== src/Http.antt =====
-- internal/core/http/router.go: routes, middleware and the dispatch of a request.
pub mod Path
pub mod Matching
pub mod Router
