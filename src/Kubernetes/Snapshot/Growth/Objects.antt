-- ===== src/Kubernetes/Snapshot/Growth/Objects.antt =====
-- The steps of `build_snapshot` in k8s/snapshot.rs for namespaces, workloads and the index.
use nix2rdf.Base.{ℕ, Str, Option, none, some}
use nix2rdf.Crates.{Crates}
use nix2rdf.Fragment.Grows.{Grows}
use nix2rdf.Fragment.Lines.{Fragment}
use nix2rdf.Hash.Json.{Json}
use nix2rdf.Kubernetes.Snapshot.Build.{add_kind, add_object}
use nix2rdf.Kubernetes.Snapshot.Context.{Ctx, Key}
use nix2rdf.Kubernetes.Snapshot.Growth.{
  steps, if_else-Grows, add_labels-Grows, container_specs-Grows,
}
use nix2rdf.Kubernetes.Snapshot.Growth.Access.{add_role_object-Grows, add_binding-Grows}
use nix2rdf.Kubernetes.Snapshot.Growth.Policies.{
  add_service-Grows, add_ingress-Grows, add_budget-Grows, add_claim-Grows, add_volume_object-Grows,
  add_policy-Grows,
}
use nix2rdf.Kubernetes.Snapshot.Pods.{Placement, AllPulled}
use nix2rdf.Kubernetes.Snapshot.Workloads.{
  add_owner, add_namespace, add_placed, add_pdb, add_workload,
}

module _ (k : Crates) (ctx : Ctx) where
  pub add_owner-Grows :
      (f x : Fragment) (oi : Str) (o : Option Str) → Grows f x → Grows f (add_owner k ctx oi o x)
  unfolding add_owner
  add_owner-Grows f x oi none g = search steps
  add_owner-Grows f x oi (some ow) g = search steps

  pub add_namespace-Grows :
      (f x : Fragment) (oi : Str) (o : Json) → Grows f x → Grows f (add_namespace k ctx oi o x)
  unfolding add_namespace
  add_namespace-Grows f x oi o g = search (steps, add_labels-Grows, add_owner-Grows) depth 20

  pub add_placed-Grows :
      (f x : Fragment) (oi : Str) (p : Str × ℕ) → Grows f x → Grows f (add_placed k ctx oi p x)
  unfolding add_placed
  add_placed-Grows f x oi (node, cnt) g = search steps

  pub add_pdb-Grows :
      (f x : Fragment) (oi ns : Str) (o pdb : Json)
      → Grows f x
      → Grows f (add_pdb k ctx oi ns o pdb x)
  unfolding add_pdb
  add_pdb-Grows f x oi ns o pdb g = search (steps) depth 20

  pub add_workload-Grows :
      (f x : Fragment) (placement : Placement) (pulled : AllPulled) (key : Key) (oi : Str)
      (o : Json)
      → Grows f x
      → Grows f (add_workload k ctx placement pulled key oi o x)
  unfolding add_workload
  add_workload-Grows f x placement pulled (w, (ns, nm)) oi o g =
      search
        (
          steps, add_labels-Grows, container_specs-Grows, add_owner-Grows, add_pdb-Grows,
          add_placed-Grows,
        )
        depth 20

  pub add_kind-Grows :
      (f x : Fragment) (placement : Placement) (pulled : AllPulled) (key : Key) (oi : Str)
      (o : Json)
      → Grows f x
      → Grows f (add_kind k ctx placement pulled key oi o x)
  unfolding add_kind
  add_kind-Grows f x placement pulled (kd, (ns, nm)) oi o g =
      search
        (
          steps, if_else-Grows, add_namespace-Grows, add_workload-Grows, add_service-Grows,
          add_ingress-Grows, add_budget-Grows, add_claim-Grows, add_volume_object-Grows,
          add_policy-Grows, add_role_object-Grows, add_binding-Grows,
        )
        depth 24

  pub add_object-Grows :
      (f x : Fragment) (placement : Placement) (pulled : AllPulled) (snap : Str) (e : Key × Json)
      → Grows f x
      → Grows f (add_object k ctx placement pulled snap e x)
  unfolding add_object
  add_object-Grows f x placement pulled snap ((kd, (ns, nm)), o) g =
      search (steps, add_kind-Grows) depth 20
