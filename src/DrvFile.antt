-- ===== src/DrvFile.antt =====
-- crates/nix2rdf-core/src/nix/drv_file.rs: derivations read from `.drv` files.
pub mod Parser
pub mod Print
pub mod RoundTrip
pub mod Fuel
pub mod Length
pub mod Derivation
pub mod Closure
pub mod Closed
pub mod Termination
