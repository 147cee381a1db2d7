-- ===== src/Packs.antt =====
-- Rule packs, crates/nix2rdf-core/src/packs.rs.
pub mod Model
pub mod Resolve
pub mod Order
pub mod Contract
pub mod Visit
pub mod Load
pub mod Prefixes
pub mod Bindings
