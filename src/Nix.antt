-- ===== src/Nix.antt =====
-- crates/nix2rdf-core/src/nix/model.rs: what the Nix commands print.
pub mod Model
pub mod Meta
pub mod Source
