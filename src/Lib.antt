-- ===== src/Lib.antt =====
-- The infrastructure control plane of this repository: a service that keeps an inventory of servers,
-- checks whether they are up and reports their uptime, next to a Terraform provider for VMware Cloud
-- Director (VCD). The HTTP server (cmd/api) authenticates a client by a signed token, limits its rate, and
-- works on the store of servers, which is PostgreSQL behind a cache in Redis. Checks and reports go over
-- gRPC, each through a circuit breaker and a retry loop, to two services that use the same database.
-- cmd/provider-sync copies the virtual machines that VCD lists into the store.
--
-- Which file models which part (paths from the repository's root):
--   Go, Go/Dict, Go/Text   errors, results, calls that change a state `W`, maps with string keys, and the
--     functions of the package strings that the program uses
--   Resilience   internal/resilience/circuit.go: `execute` is Execute, `settle` its second critical
--     section, `retry` is Retry. History is the breaker under any interleaving of its callers, Breaker one
--     call, Attempts and Waiting the number of calls and the time that Retry takes
--   Server   internal/server/model.go: `memory_store` is MemoryStore; Contract is what a Store promises
--   Inventory   internal/providerinventory: `sync` is Sync
--   Reporting   internal/reporting/report.go
--   Database   internal/database/postgres.go: `server_store` is its ServerStore
--   Audit   internal/audit/audit.go
--   Cache   internal/cache: `cached_store` is its ServerStore; Coherence, Through, Keeps and Laws are about
--     the agreement of cache and database, Stale about two calls that overlap
--   RateLimit   internal/ratelimit/limiter.go
--   Auth   internal/auth/jwt.go: `issue`, `middleware` and `require_role`; `guard` is the chain of a route
--   Monitoring   internal/monitoring/checker.go: `check` is Check; CheckAll is a step relation over the
--     states of its goroutines and channels
--   Search   internal/search/elasticsearch.go
--   Grpc   internal/grpcmonitoring/service.go and internal/grpcreporting/service.go
--   Config, Metrics, Tls   internal/config, internal/metrics, internal/tlsconfig
--   Api   the handlers of cmd/api/main.go: Calls those on the store and the audit log, Remote those that
--     call a service, Breakers, Failing and Access theorems about them
--   ProviderSync   cmd/provider-sync/main.go: `main` from the environment to the counters, and
--     Counters what a run that ends well has done
--   Vcd   the shared parts of the Terraform provider: Inventory vcd/monitoring_inventory.go, Structure
--     vcd/structure.go, Validators vcd/validate_funcs.go
--   Vcd/Metadata, Vcd/IgnoredMetadata   vcd/metadata.go: `create_or_update_entries` is
--     createOrUpdateMetadataEntryInVcd, `update_metadata_in_state` (State) is updateMetadataInState; Update,
--     Latest and Filter are about these, RoundTrip about the entries in between, Configured and Conflicts
--     about the blocks of ignored entries and the check of them
--   Vcd/Locks   vcd/mutexkv.go as a step relation over goroutines, Keys the lock functions of vcd/config.go;
--     Exclusion and Parents are theorems about them
--   Vcd/Connection   Config.Client and ProviderAuthenticate of vcd/config.go; Served is about what it gives
--   Vcd/Lookup   the Get functions of vcd/config.go
--   Vcd/Filter   vcd/filter.go, and Search vcd/filter_get.go; Only is about what a search gives
--   Vcd/Firewall   vcd/resource_vcd_nsxv_firewall_rule.go and the lookups of vcd/resource_vcd_ipset.go,
--     Endpoints a source or destination, Rule the whole rule and its handlers; Convert, Lookup, RoundTrip and
--     Stored are about what is read back
--   Vcd/Nat   vcd/nsxv_nat.go; Types is about the vNic of a network
--   Tests   the theorems at concrete inputs
--
-- How it is modelled. A call that reads or changes the outside is a function of a state `W` that it passes
-- on; where code runs on any state, `W` and the calls are parameters, with the documented behaviour that a
-- theorem needs as a named record of laws (StoreLaws, RedisLaws, CodecLaws, JwtLaws, Counts, Sleeps,
-- DoneMeansErr, ClockKeeps, MetadataLaws, FilterLaws, EdgeLaws). The SQL statements are functions on tables;
-- a database may refuse any statement.
-- Times are nanoseconds since Go's zero time as natural numbers; the delay of Retry has its wrap-around at
-- 64 bits. No function runs on fuel: every loop goes over a list or counts down the attempts of Retry, and a
-- run of CheckAll is a sequence of steps whose length is bounded.
--
-- What is not modelled: the wiring of the servers' main functions (connections, listeners, shutdown),
-- logging, the generated gRPC code (gen), the benchmark (bench), the import of firewall and NAT rules, Terraform's
-- schemas, and the other resources and data sources of the
-- Terraform provider (vcd), which pass fields between the Terraform SDK and the VCD client. PostgreSQL,
-- Redis, the JWT library, golang.org/x/time/rate, the VCD client and the floating-point numbers are
-- parameters.
mod Prelude
pub mod Go
pub mod Resilience
pub mod Server
pub mod Inventory
pub mod Reporting
pub mod Database
pub mod Audit
pub mod Cache
pub mod RateLimit
pub mod Auth
pub mod Monitoring
pub mod Search
pub mod Grpc
pub mod Config
pub mod Metrics
pub mod Api
pub mod Vcd
pub mod Tls
pub mod ProviderSync
mod Tests
