-- ===== src/Iri.antt =====
-- crates/nix2rdf-core/src/iri.rs: the IRI scheme. An IRI is its text.
pub mod Base64
pub mod Sample
pub mod Segment
pub mod StorePath
pub mod Instances
pub mod Kubernetes
