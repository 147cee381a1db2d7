-- ===== src/Store.antt =====
-- `Store` of crates/nix2rdf-core/src/store.rs and the files that it keeps.
pub mod Files
pub mod Write
pub mod Listing
