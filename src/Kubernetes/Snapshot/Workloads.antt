-- ===== src/Kubernetes/Snapshot/Workloads.antt =====
-- Of the match in `build_snapshot`: namespaces and workloads, with their owners.
use nix2rdf.Base.{
  ℕ, ◌^◌, true, false, ◌&&◌, Option, none, some, List, [], ◌∷◌, ◌++◌, Str, codes, str_eq, ltb,
  if◌then◌else◌, unwrap_or, ◌>>=◌,
}
use nix2rdf.Base.Decimal.{format}
use nix2rdf.Base.Map
use nix2rdf.Base.Order.{str_ord}
use nix2rdf.Base.Steps.{for_each, if_some, if_true, ◌▷◌}
use nix2rdf.Crates.{Crates}
use nix2rdf.Fragment.Build.{I64, pos, negsuc, add_node, add_type, add_str, add_bool, add_int}
use nix2rdf.Fragment.Lines.{Fragment}
use nix2rdf.Hash.Json
use nix2rdf.Hash.Json.{Json}
use nix2rdf.Iri.Kubernetes.{k8s_node, owner as owner_iri}
use nix2rdf.Kubernetes.Objects.{
  walk, name, namespace, labels, annotations, pod_labels, has_label, selector_matches,
}
use nix2rdf.Kubernetes.Snapshot.Containers.{container_specs}
use nix2rdf.Kubernetes.Snapshot.Context.{
  term, Key, key_ord, Ctx, obj_iri, of_kind, owner, cost_center, add_labels,
}
use nix2rdf.Kubernetes.Snapshot.Policies.{ns_option}
use nix2rdf.Kubernetes.Snapshot.Pods.{Placement, AllPulled}
use nix2rdf.Vocab.{k8s}

-- `as_i64`
unfoldable pub as_i64 : Json → Option I64
as_i64 (Json.number n) = elim n [
  | Json.Number.pos_int m ↦ if ltb m (2 ^ 63) then some (pos m) else none
  | Json.Number.neg_int m ↦ some (negsuc m)
  | Json.Number.float x ↦ none
]
as_i64 _ = none

unfoldable pub i : Json → List Str → Option I64
i v path = walk v path >>= as_i64

abbrev or_one : Option I64 → Option I64
or_one none = some (pos 1)
or_one (some n) = some n

unfoldable pub replicas : Str → Json → Option I64
replicas w o =
    if str_eq w (codes "DaemonSet")
    then i o (codes "status" ∷ codes "desiredNumberScheduled" ∷ [])
    else if str_eq w (codes "CronJob")
    then none
    else if str_eq w (codes "Job")
    then or_one (i o (codes "spec" ∷ codes "parallelism" ∷ []))
    else or_one (i o (codes "spec" ∷ codes "replicas" ∷ []))

unfoldable pub ready : Str → Json → Option I64
ready w o =
    if str_eq w (codes "DaemonSet")
    then i o (codes "status" ∷ codes "numberReady" ∷ [])
    else if str_eq w (codes "Job")
    then i o (codes "status" ∷ codes "succeeded" ∷ [])
    else i o (codes "status" ∷ codes "readyReplicas" ∷ [])

module _ (k : Crates) (ctx : Ctx) where
  -- The owner of an object, or the mark that none is known.
  unfoldable pub add_owner : Str → Option Str → Fragment → Fragment
  add_owner oi none f = add_bool k.quote oi (term "ownerUnknown") true f
  add_owner oi (some ow) f =
      let on = owner_iri ow in
      f
      ▷ add_type on (term "Owner")
      ▷ add_str k.quote on (term "name") ow
      ▷ add_node oi (term "ownedBy") on

  unfoldable pub add_namespace : Str → Json → Fragment → Fragment
  add_namespace oi o f =
      f
      ▷ add_type oi (term "Namespace")
      ▷ add_labels k oi (labels o)
      ▷ add_owner oi (owner ctx (labels o) (annotations o) none)

  unfoldable pub add_placed : Str → Str × ℕ → Fragment → Fragment
  add_placed oi (node, cnt) f =
      f
      ▷ add_node oi (term "scheduledOn") (k8s_node ctx.cid node)
      ▷ add_str k.quote oi (term "replicasOnNode") (node ++ (b':' ∷ format cnt))

  -- A disruption budget of the namespace that selects the pods of the workload.
  unfoldable pub add_pdb : Str → Str → Json → Json → Fragment → Fragment
  add_pdb oi ns o pdb =
      if_true
        (str_eq (unwrap_or (codes "default") (namespace pdb)) ns
          && selector_matches (walk pdb (codes "spec" ∷ codes "selector" ∷ [])) (pod_labels o)
              false)
        (add_node oi (term "hasPDB")
          (obj_iri ctx (codes "PodDisruptionBudget") (ns_option ns) (name pdb)))

  unfoldable pub add_workload : Placement → AllPulled → Key → Str → Json → Fragment → Fragment
  add_workload placement pulled (w, (ns, nm)) oi o f =
      f
      ▷ add_type oi (term "Workload")
      ▷ add_type oi (k8s w)
      ▷ add_labels k oi (labels o)
      ▷ if_some (add_int k.quote oi (term "replicas")) (replicas w o)
      ▷ if_some (add_int k.quote oi (term "readyReplicas")) (ready w o)
      ▷ if_some (for_each (add_placed oi)) (Map.get (w, (ns, nm)) placement)
      ▷ container_specs k ctx o oi (unwrap_or [] (Map.get (w, (ns, nm)) pulled))
      ▷ add_owner oi (owner ctx (labels o) (annotations o) (ns_option ns))
      ▷ if_some (add_str k.quote oi (term "costCenter"))
          (cost_center ctx (labels o) (annotations o) (ns_option ns))
      ▷ if_true (has_label (annotations o) ctx.cfg.exempt_single_domain_annotation (codes "true"))
          (add_bool k.quote oi (term "exemptSingleDomain") true)
      ▷ for_each (add_pdb oi ns o) (of_kind ctx (codes "PodDisruptionBudget"))
