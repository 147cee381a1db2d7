-- ===== src/Extract/Flake.antt =====
-- crates/nix2rdf-core/src/extract/flake.rs: a flake with its lock graph.
pub mod Reference
pub mod Follows
pub mod Lock
pub mod Roots
