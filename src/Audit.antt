-- ===== src/Audit.antt =====
-- internal/audit/audit.go: the log of security events.
pub mod Listing
use terraform_provider_viett.Prelude.{
  ℕ, ◌+◌, String, Bool, List, ◌∷◌, ◌||◌, ltb, num_eq, if◌then◌else◌,
}
use terraform_provider_viett.Go.{Result, ok, Act, ℤ, pos, negsuc}
use terraform_provider_viett.Database.{Event, Tables, Database, run}
use terraform_provider_viett.Database.Sql.{order_desc, take}

-- what the caller of Record fills in: the database gives the id and the time
pub record Entry : Type 0 where
  pub actor : String
  pub role : String
  pub action : String
  pub resource : String
  pub resource_id : String
  pub success : Bool

unfoldable pub event_of : Entry → ℕ → ℕ → Event
event_of e id now = record {
  id = id;
  actor = e.actor;
  role = e.role;
  action = e.action;
  resource = e.resource;
  resource_id = e.resource_id;
  success = e.success;
  created_at = now;
}

unfoldable pub insert_event : Entry → ℕ → Tables → Result (Unit {0}) × Tables
unfolding event_of
insert_event e now t = (
  ok tt,
  record t {
    audit_events = event_of e t.next_audit_id now ∷ t.audit_events;
    next_audit_id = t.next_audit_id + 1;
  },
)

-- (*Store).Record
unfoldable pub record_event : Entry → Act Database (Unit {0})
unfolding run insert_event
record_event e = run (insert_event e)

-- the guard of List on its argument
unfoldable pub effective_limit : ℤ → ℕ
effective_limit (negsuc n) = 100
effective_limit (pos n) = if num_eq n 0 || ltb 1000 n then 100 else n

-- SELECT ... ORDER BY created_at DESC LIMIT $1
unfoldable pub select_events : ℕ → ℕ → Tables → Result (List Event) × Tables
select_events limit now t =
    (ok (take limit (order_desc (λ (e : Event). e.created_at) t.audit_events)), t)

-- (*Store).List
unfoldable pub list_events : ℤ → Act Database (List Event)
unfolding run select_events effective_limit
list_events limit = run (select_events (effective_limit limit))
