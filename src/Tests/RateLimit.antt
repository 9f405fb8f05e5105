-- ===== src/Tests/RateLimit.antt =====
-- internal/ratelimit/limiter.go with buckets that are counters and are never refilled.
use terraform_provider_viett.Prelude.{ℕ, ◌-◌, ◌≡◌, none, List, [], ◌∷◌, ltb}
use terraform_provider_viett.RateLimit.{Limiters, Manager, new_manager}
use terraform_provider_viett.RateLimit.Clients.{or_full}
use terraform_provider_viett.RateLimit.Isolation.{
  Request, serve, serve_all, own_bucket, serve-own_bucket,
}

abbrev counters : Limiters ℕ
counters = record {
  Rate = ℕ;
  make = λ rate burst. burst;
  allow = λ now left. (ltb 0 left, left - 1);
}

abbrev fresh_manager : Manager ℕ ℕ
fresh_manager = new_manager counters 25 2 600 (λ p. 0)

-- a client with three requests and one with one
abbrev requests : List Request
requests =
    record { client_ip = "10.0.0.1"; now = 1; now' = 2 }
    ∷ record { client_ip = "10.0.0.2"; now = 3; now' = 4 }
    ∷ record { client_ip = "10.0.0.1"; now = 5; now' = 6 }
    ∷ []

abbrev third : Request
third = record { client_ip = "10.0.0.1"; now = 7; now' = 8 }

serve-own_bucket_example :
    (serve counters third (serve_all counters requests fresh_manager)).0
    ≡ (counters.allow 8 (
        or_full
          (counters.make 25 2)
          (own_bucket counters (counters.make 25 2) "10.0.0.1" requests none))).0
serve-own_bucket_example = serve-own_bucket counters 25 2 600 (λ p. 0) requests third
