-- ===== src/Kubernetes.antt =====
-- Kubernetes objects, crates/nix2rdf-core/src/k8s.
pub mod Objects
pub mod Images
pub mod Remove
pub mod Normalize
pub mod Stripped
pub mod Manifests
pub mod Snapshot
