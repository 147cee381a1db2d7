-- ===== src/Kubernetes/Snapshot/Nodes.antt =====
-- `nodes_fragment` of snapshot.rs: the nodes with their roles, versions and failure domains.
use nix2rdf.Base.{Option, none, some, List, [], ◌∷◌, ◌++◌, Str, codes, strip_prefix}
use nix2rdf.Base.Map
use nix2rdf.Base.Order.{str_ord}
use nix2rdf.Base.Set
use nix2rdf.Base.Steps.{for_each, if_some, ◌▷◌}
use nix2rdf.Crates.{Crates}
use nix2rdf.Fragment.Build.{add_node, add_type, add_str}
use nix2rdf.Fragment.Kind.{FragmentKind}
use nix2rdf.Fragment.Lines.{Fragment, new}
use nix2rdf.Hash.Json.{Json}
use nix2rdf.Iri.Instances.{gen}
use nix2rdf.Iri.Kubernetes.{k8s_cluster, k8s_node, k8s_failure_domain}
use nix2rdf.Kubernetes.Objects.{Labels, s, name, labels, annotations}
use nix2rdf.Kubernetes.Snapshot.Context.{term, Ctx, SnapshotOptions, of_kind, find_key, add_labels}

abbrev pub placeholder : Str
placeholder = codes "PENDINGHASH"

-- The failure domains of a node, with their kinds.
unfoldable pub domains : Ctx → Labels → List (Str × Str)
domains ctx labels =
    let domain : Str → Option Str → List (Str × Str) =
      λ kind o. elim o [ none ↦ [] | some v ↦ (kind, v) ∷ [] ] in
    domain (codes "zone") (find_key ctx.cfg.zone_keys labels)
    ++ domain (codes "region") (find_key ctx.cfg.region_keys labels)
    ++ domain (codes "rack") (Map.get ctx.cfg.rack_key labels)
    ++ domain (codes "site") (Map.get ctx.cfg.site_key labels)

-- The generation that the host runs: what the options say, or else the annotation.
unfoldable pub generation : Ctx → SnapshotOptions → Str → Labels → Option Str
generation ctx opts nm ann = elim (Map.get nm opts.node_map) [
  | some g ↦ some g
  | none ↦ Map.get ctx.cfg.generation_annotation ann
]

module _ (k : Crates) (ctx : Ctx) where
  unfoldable pub add_role : Str → Str × Str → Fragment → Fragment
  add_role ni (key, v) =
      if_some (add_str k.quote ni (term "nodeRole"))
        (strip_prefix (codes "node-role.kubernetes.io/") key)

  unfoldable pub add_version : Str → Json → Str × Str → Fragment → Fragment
  add_version ni node (prop, path) =
      if_some (add_str k.quote ni prop) (s node (codes "status" ∷ codes "nodeInfo" ∷ path ∷ []))

  unfoldable pub add_domain : Str → Str × Str → Fragment → Fragment
  add_domain ni (kind, val) f =
      let d = k8s_failure_domain ctx.cid kind val in
      f
      ▷ add_type d (term "FailureDomain")
      ▷ add_str k.quote d (term "domainKind") kind
      ▷ add_str k.quote d (term "name") val
      ▷ add_node d (term "inCluster") (k8s_cluster ctx.cid)
      ▷ add_node ni (term "inFailureDomain") d

  abbrev versions : List (Str × Str)
  versions =
      (term "kubeletVersion", codes "kubeletVersion")
      ∷ (term "containerRuntimeVersion", codes "containerRuntimeVersion")
      ∷ (term "kernelVersion", codes "kernelVersion")
      ∷ (term "osImage", codes "osImage")
      ∷ []

  unfoldable pub add_node_object : SnapshotOptions → Json → Fragment → Fragment
  add_node_object opts node f =
      let ni = k8s_node ctx.cid (name node) in
      f
      ▷ add_type ni (term "Node")
      ▷ add_str k.quote ni (term "name") (name node)
      ▷ add_node ni (term "inCluster") (k8s_cluster ctx.cid)
      ▷ add_labels k ni (labels node)
      ▷ for_each (add_role ni) (labels node)
      ▷ for_each (add_version ni node) versions
      ▷ for_each (add_domain ni) (domains ctx (labels node))
      ▷ if_some (λ g. add_node ni (term "hostGeneration") (gen g))
          (generation ctx opts (name node) (annotations node))

  unfoldable pub nodes_fragment : SnapshotOptions → Fragment × List Str
  nodes_fragment opts =
      let nodes = of_kind ctx (codes "Node") in
      (
        for_each (add_node_object opts) nodes
            (new (FragmentKind.k8s_nodes opts.cluster_id placeholder)),
        for_each (λ node. Set.insert (name node)) nodes [],
      )
