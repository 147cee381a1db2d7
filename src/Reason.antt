-- ===== src/Reason.antt =====
-- crates/nix2rdf-core/src/reason.rs.
pub mod Percent
pub mod Resolve
pub mod Nulls
pub mod Renaming
pub mod NullNodes
pub mod Collect
pub mod Inputs
pub mod InputHash
pub mod Token
