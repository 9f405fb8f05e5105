-- ===== src/Api.antt =====
-- cmd/api/main.go: the handlers of the HTTP server, behind the middlewares of their routes.
pub mod Call
pub mod Calls
pub mod Remote
pub mod Breakers
pub mod Failing
pub mod Access
