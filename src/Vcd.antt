-- ===== src/Vcd.antt =====
-- The parts of the Terraform provider that the control plane and many resources share.
pub mod Inventory
pub mod Structure
pub mod Validators
pub mod Connection
pub mod Lookup
pub mod Locks
pub mod Metadata
pub mod IgnoredMetadata
pub mod Filter
pub mod Firewall
pub mod Nat
