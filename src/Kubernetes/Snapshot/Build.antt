-- ===== src/Kubernetes/Snapshot/Build.antt =====
-- `build_snapshot` and `rehash` of snapshot.rs. The parser of N-Quads is oxttl's.
use nix2rdf.Base.{
  ℕ, suc, Bool, true, not, Option, List, [], ◌∷◌, Str, codes, str_eq, if◌then◌else◌, unwrap_or,
}
use nix2rdf.Base.Replace.{replace}
use nix2rdf.Base.Steps.{for_each, if_some, if_true, ◌▷◌}
use nix2rdf.Crates.{Crates}
use nix2rdf.Fragment.Build.{add_node, add_type, add_str, add_bool, add_typed}
use nix2rdf.Fragment.Kind.{FragmentKind, graph}
use nix2rdf.Fragment.Lines.{Fragment, Quad, new, from_quads, to_nquads}
use nix2rdf.Hash.Items.{sha256_hex}
use nix2rdf.Hash.Json.{Json}
use nix2rdf.Iri.Kubernetes.{k8s_cluster, k8s_node, k8s_namespace, k8s_nodes_fragment}
use nix2rdf.Kubernetes.Objects.{s}
use nix2rdf.Kubernetes.Snapshot.Access.{add_role_object, add_binding}
use nix2rdf.Kubernetes.Snapshot.Context.{
  term, StateKind, live, desired, SnapshotOptions, SnapshotInput, Key, Ctx, context, obj_iri,
  is_workload, Index,
}
use nix2rdf.Kubernetes.Snapshot.Nodes.{placeholder, nodes_fragment}
use nix2rdf.Kubernetes.Snapshot.Pods.{Placement, AllPulled, placement_of, pulled_of}
use nix2rdf.Kubernetes.Snapshot.Policies.{
  add_service, add_ingress, add_budget, add_claim, add_volume_object, add_policy, ns_option,
}
use nix2rdf.Kubernetes.Snapshot.Workloads.{add_namespace, add_workload}
use nix2rdf.Vocab.{nix, xsd_date_time}

pub record SnapshotOutput : Type 0 where
  pub snapshot : Fragment
  pub nodes : Fragment
  pub observed : Fragment
  pub snapshot_iri : Str
  pub snapshot_hash : Str
  pub nodes_hash : Str
  pub objects : ℕ

unfoldable pub show_state : StateKind → Str
show_state live = term "liveState"
show_state desired = term "desiredState"

unfoldable pub is_listed : Key × Json → Bool
is_listed ((kd, nsnm), o) = not (str_eq kd (codes "ReplicaSet"))

unfoldable pub count_listed : Index → ℕ
count_listed [] = 0
count_listed (e ∷ index) = if is_listed e then suc (count_listed index) else count_listed index

module _ (k : Crates) (ctx : Ctx) where
  -- The arms of the match on the kind.
  unfoldable pub add_kind : Placement → AllPulled → Key → Str → Json → Fragment → Fragment
  add_kind placement pulled (kd, (ns, nm)) oi o =
      if str_eq kd (codes "Node")
      then (λ f. f)
      else if str_eq kd (codes "Namespace")
      then add_namespace k ctx oi o
      else if is_workload kd
      then add_workload k ctx placement pulled (kd, (ns, nm)) oi o
      else if str_eq kd (codes "Service")
      then add_service k ctx oi ns o
      else if str_eq kd (codes "Ingress")
      then add_ingress k ctx oi ns o
      else if str_eq kd (codes "ConfigMap")
      then add_type oi (term "ConfigMap")
      else if str_eq kd (codes "Secret")
      then add_type oi (term "Secret")
      else if str_eq kd (codes "ServiceAccount")
      then add_type oi (term "ServiceAccount")
      else if str_eq kd (codes "StorageClass")
      then add_type oi (term "StorageClass")
      else if str_eq kd (codes "PodDisruptionBudget")
      then add_budget k ctx oi o
      else if str_eq kd (codes "PersistentVolumeClaim")
      then add_claim k ctx oi o
      else if str_eq kd (codes "PersistentVolume")
      then add_volume_object k ctx oi o
      else if str_eq kd (codes "NetworkPolicy")
      then add_policy k ctx oi ns o
      else if str_eq kd (codes "Role")
      then add_role_object k ctx kd oi nm o
      else if str_eq kd (codes "ClusterRole")
      then add_role_object k ctx kd oi nm o
      else if str_eq kd (codes "RoleBinding")
      then add_binding k ctx kd oi ns o
      else if str_eq kd (codes "ClusterRoleBinding")
      then add_binding k ctx kd oi ns o
      else λ f. f

  unfoldable pub add_object : Placement → AllPulled → Str → Key × Json → Fragment → Fragment
  add_object placement pulled snap ((kd, (ns, nm)), o) f =
      let oi = obj_iri ctx kd (ns_option ns) nm in
      f
      ▷ add_node snap (term "contains") oi
      ▷ add_str k.quote oi (term "name") nm
      ▷ add_str k.quote oi (term "kind") kd
      ▷ if_some (add_str k.quote oi (term "apiVersion")) (s o (codes "apiVersion" ∷ []))
      ▷ add_node oi (term "inCluster") (k8s_cluster ctx.cid)
      ▷ if_some (λ n. add_node oi (term "inNamespace") (k8s_namespace ctx.cid n)) (ns_option ns)
      ▷ add_kind placement pulled (kd, (ns, nm)) oi o

  -- The loop over the index.
  unfoldable pub add_objects : Placement → AllPulled → Str → Index → Fragment → Fragment
  add_objects placement pulled snap =
      for_each (λ e. if_true (is_listed e) (add_object placement pulled snap e))

  unfoldable pub add_failed : Str → List Str → Fragment → Fragment
  add_failed snap [] f = f
  add_failed snap (fk ∷ failed) f =
      f
      ▷ add_bool k.quote snap (term "partial") true
      ▷ for_each (add_str k.quote snap (term "failedKind")) (fk ∷ failed)

  -- The lines of the snapshot, whose graph has the placeholder for its hash.
  unfoldable pub pending : List Str → SnapshotOptions → List Str → Placement → AllPulled → Fragment
  pending failed opts node_names placement pulled =
      let kind = FragmentKind.k8s_snapshot ctx.cid placeholder in
      let snap = graph k.base64 kind in
      let cluster = k8s_cluster ctx.cid in
      new kind
      ▷ add_type snap (term "Snapshot")
      ▷ add_node snap (term "snapshotKind") (show_state opts.state)
      ▷ add_node snap (term "ofCluster") cluster
      ▷ add_type cluster (term "Cluster")
      ▷ add_str k.quote cluster (term "clusterId") ctx.cid
      ▷ add_failed snap failed
      ▷ for_each (λ nn. add_node snap (term "contains") (k8s_node ctx.cid nn)) node_names
      ▷ add_objects placement pulled snap ctx.index

module _ (k : Crates) (parse_nquads : Str → Option (List Quad)) where
  -- Every occurrence of the placeholder in the text is replaced; a text that is not read has no
  -- quads.
  unfoldable pub rehash : Fragment → Str → List Quad
  rehash f real = unwrap_or [] (parse_nquads (replace placeholder real (to_nquads k.base64 f)))

  unfoldable pub hash_of_text : Fragment → Str
  hash_of_text f = sha256_hex k.digest (to_nquads k.base64 f)

  unfoldable pub observed_fragment : Str → Str → Str → Str → Str → Fragment
  observed_fragment cid snapshot_iri snapshot_hash nodes_hash observed_at =
      new (FragmentKind.k8s_observed cid snapshot_hash observed_at)
      ▷ add_typed k.quote snapshot_iri (term "observedAt") observed_at xsd_date_time
      ▷ add_node snapshot_iri (nix (codes "hasFragment")) (k8s_nodes_fragment cid nodes_hash)

  -- What is built of the context and of what was read off the pods.
  unfoldable pub of_parts :
      Ctx → List Str → SnapshotOptions → Placement → AllPulled → SnapshotOutput
  of_parts ctx failed opts placement pulled =
      let cid = ctx.cid in
      let (nodes_frag, node_names) = nodes_fragment k ctx opts in
      let nodes_hash = hash_of_text nodes_frag in
      let f = pending k ctx failed opts node_names placement pulled in
      let snapshot_hash = hash_of_text f in
      let snapshot =
        from_quads (FragmentKind.k8s_snapshot cid snapshot_hash) (rehash f snapshot_hash) in
      let snapshot_iri = graph k.base64 snapshot.kind in
      record {
        snapshot = snapshot;
        nodes = from_quads (FragmentKind.k8s_nodes cid nodes_hash) (rehash nodes_frag nodes_hash);
        observed = observed_fragment cid snapshot_iri snapshot_hash nodes_hash opts.observed_at;
        snapshot_iri = snapshot_iri;
        snapshot_hash = snapshot_hash;
        nodes_hash = nodes_hash;
        objects = count_listed ctx.index;
      }

  unfoldable pub snapshot_of : Ctx → SnapshotInput → SnapshotOptions → SnapshotOutput
  snapshot_of ctx input opts =
      of_parts ctx input.failed_kinds opts (placement_of ctx input.pods) (pulled_of ctx input.pods)

  unfoldable pub build_snapshot : SnapshotInput → SnapshotOptions → SnapshotOutput
  build_snapshot input opts = snapshot_of (context input opts) input opts
