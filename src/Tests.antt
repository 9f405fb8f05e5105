-- ===== src/Tests.antt =====
-- The theorems of the library at concrete inputs, a module per component.
mod Resilience
mod Inventory
mod RateLimit
mod Auth
mod Database
mod Monitoring
mod Cache
mod Vcd
mod Api
mod ProviderSync
mod Metadata
mod Locks
mod Connection
mod Filter
mod Firewall
mod Nat
