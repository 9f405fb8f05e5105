-- ===== src/Api/Call.antt =====
-- The responses of cmd/api/main.go.
use terraform_provider_viett.Prelude.{ℕ, String, List}
use terraform_provider_viett.Server.{Server}
use terraform_provider_viett.Database.{Event}
use terraform_provider_viett.Grpc.{CheckResponse, UptimeResponse}

-- gin.H bodies by their keys: an error, an error with a detail, a status, the status
-- "degraded" with "postgres" as "down", a token with its role. The
-- float64 of a report stands as its JSON text.
pub data Body : Type 0 where
  error_body : String → Body
  detail_body : String → String → Body
  status_body : String → Body
  degraded_body : Body
  token_body : String → String → Body
  server_body : Server → Body
  servers_body : List Server → Body
  events_body : List Event → Body
  check_body : CheckResponse → Body
  report_body : UptimeResponse String → Body
  null_body : Body

pub record Response : Type 0 where
  pub status : ℕ
  pub body : Body

unfoldable pub respond : ℕ → Body → Response
respond status body = record { status = status; body = body }
