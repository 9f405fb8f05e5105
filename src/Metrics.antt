-- ===== src/Metrics.antt =====
-- internal/metrics/metrics.go: what the program adds to its Prometheus metrics. A counter is the list of
-- the label values that it was incremented for, a histogram that of its observations in nanoseconds, the
-- newest first.
use terraform_provider_viett.Prelude.{
  ℕ, ◌+◌, ◌-◌, String, Option, none, some, List, [], ◌∷◌, ◌==◌, if◌then◌else◌,
}
use terraform_provider_viett.Go.{Failure}

pub record Observation : Type 0 where
  pub labels : List String
  pub duration : ℕ

pub record Metrics : Type 0 where
  pub http_requests : List (List String)
  pub http_duration : List Observation
  pub grpc_calls : List (List String)
  pub grpc_duration : List Observation
  pub circuit_open : ℕ
  pub audit_events : List (List String)

-- New
unfoldable pub new_metrics : Metrics
new_metrics = record {
  http_requests = [];
  http_duration = [];
  grpc_calls = [];
  grpc_duration = [];
  circuit_open = 0;
  audit_events = [];
}

-- what HTTPMiddleware adds once the handlers of a request are done; `show` is strconv.Itoa
unfoldable pub observe_http : (ℕ → String) → String → String → ℕ → ℕ → ℕ → Metrics → Metrics
observe_http show method full_path status start now m =
    let path = if full_path == "" then "unknown" else full_path in
    record m {
      http_requests = (method ∷ path ∷ show status ∷ []) ∷ m.http_requests;
      http_duration =
          record { labels = method ∷ path ∷ []; duration = now - start } ∷ m.http_duration;
    }

unfoldable pub result_label : Option Failure → String
result_label none = "success"
result_label (some _) = "error"

-- ObserveGRPC
unfoldable pub observe_grpc : String → String → ℕ → ℕ → Option Failure → Metrics → Metrics
unfolding result_label
observe_grpc service operation start now e m = record m {
  grpc_calls = (service ∷ operation ∷ result_label e ∷ []) ∷ m.grpc_calls;
  grpc_duration =
      record { labels = service ∷ operation ∷ []; duration = now - start } ∷ m.grpc_duration;
}

-- CircuitOpen.Inc()
unfoldable pub count_circuit_open : Metrics → Metrics
count_circuit_open m = record m { circuit_open = m.circuit_open + 1 }
