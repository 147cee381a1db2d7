-- ===== src/Kubernetes/Snapshot/Owners.antt =====
-- `pod_owner` of k8s/snapshot.rs.
use nix2rdf.Base.Order.{str_ord}
use nix2rdf.Hash.Json.{Json}
