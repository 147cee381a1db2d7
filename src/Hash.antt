-- ===== src/Hash.antt =====
-- crates/nix2rdf-core/src/hash.rs: content hashing.
pub mod Items
pub mod Json
pub mod Canonical
pub mod Sorted
