-- ===== src/Kubernetes/Snapshot.antt =====
-- crates/nix2rdf-core/src/k8s/snapshot.rs: from the objects of a cluster to three fragments.
pub mod Context
pub mod Order
pub mod Nodes
pub mod Containers
pub mod Pods
pub mod Policies
pub mod Access
pub mod Workloads
pub mod Build
pub mod Identity
pub mod Growth
pub mod Owners
pub mod Contents
pub mod ImageLines
