-- ===== src/Extract.antt =====
-- The extractors of crates/nix2rdf-core/src/extract.
pub mod Derivation
pub mod Outputs
pub mod Graph
pub mod Runtime
pub mod Flake
pub mod Image
pub mod Nixos
pub mod NixpkgsIndex
pub mod NixpkgsEval
