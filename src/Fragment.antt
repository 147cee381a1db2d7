-- ===== src/Fragment.antt =====
-- crates/nix2rdf-core/src/fragment.rs: the unit of storage.
pub mod Kind
pub mod Lines
pub mod Nquads
pub mod Build
pub mod Grows
