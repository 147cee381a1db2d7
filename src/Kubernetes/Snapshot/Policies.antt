-- ===== src/Kubernetes/Snapshot/Policies.antt =====
-- Of the match in `build_snapshot`: services, ingresses, storage and network policies.
use Prim.Native.String.{String}
use nix2rdf.Base.{
  Bool, true, false, ◌&&◌, Option, none, some, List, [], ◌∷◌, ◌++◌, Str, codes, str_eq, ◌==◌,
  if◌then◌else◌,
}
use nix2rdf.Base.Order.{str_ord}
use nix2rdf.Base.Set
use nix2rdf.Base.Split.{trim_matches}
use nix2rdf.Base.Steps.{for_each, if_some, if_true, ◌▷◌}
use nix2rdf.Crates.{Crates}
use nix2rdf.Fragment.Build.{add_node, add_type, add_str, add_bool}
use nix2rdf.Fragment.Lines.{Fragment}
use nix2rdf.Hash.Json.{Json}
use nix2rdf.Iri.Kubernetes.{k8s_namespace, k8s_node}
use nix2rdf.Kubernetes.Objects.{
  Labels, s, arr, map, kind, name, walk, field, strings, contains_str, pod_labels,
  plain_selector_matches, selector_matches,
}
use nix2rdf.Kubernetes.Snapshot.Context.{term, Ctx, NsMeta, obj_iri, workloads_in}

-- The namespaces that a selector covers.
unfoldable pub covered : Json → NsMeta → List Str
covered sel [] = []
covered sel ((n, (l, a)) ∷ ns_meta) =
    let rest = covered sel ns_meta in if selector_matches (some sel) l true then n ∷ rest else rest

-- The types of a policy; `Ingress` where none is given.
unfoldable pub policy_types : Json → List Str
policy_types o = elim (strings (arr o (codes "spec" ∷ codes "policyTypes" ∷ []))) [
  | [] ↦ codes "Ingress" ∷ []
  | t ∷ types ↦ t ∷ types
]

-- The services of a rule of an ingress.
unfoldable pub add_backend : Json → List Str → List Str
add_backend p = if_some Set.insert (s p (codes "backend" ∷ codes "service" ∷ codes "name" ∷ []))

unfoldable pub ingress_services : Json → List Str
ingress_services o =
    []
    ▷ if_some Set.insert
        (s o (codes "spec" ∷ codes "defaultBackend" ∷ codes "service" ∷ codes "name" ∷ []))
    ▷ for_each (λ r. for_each add_backend (arr r (codes "http" ∷ codes "paths" ∷ [])))
        (arr o (codes "spec" ∷ codes "rules" ∷ []))

-- The namespace of an object, which the index has as a text.
unfoldable pub ns_option : Str → Option Str
ns_option [] = none
ns_option (b ∷ ns) = some (b ∷ ns)

module _ (k : Crates) (ctx : Ctx) where
  -- An edge to each of the workloads that a test selects.
  unfoldable pub add_selected :
      Str → Str → Option Str → (Labels → Bool) → List Json → Fragment → Fragment
  add_selected oi prop ns test =
      for_each
        (λ w. if_true (test (pod_labels w)) (add_node oi prop (obj_iri ctx (kind w) ns (name w))))

  unfoldable pub add_service : Str → Str → Json → Fragment → Fragment
  add_service oi ns o f =
      f
      ▷ add_type oi (term "Service")
      ▷ add_selected oi (term "selects") (ns_option ns)
          (plain_selector_matches (map o (codes "spec" ∷ codes "selector" ∷ [])))
          (workloads_in ctx ns)

  unfoldable pub add_ingress : Str → Str → Json → Fragment → Fragment
  add_ingress oi ns o f =
      f
      ▷ add_type oi (term "Ingress")
      ▷ for_each
          (λ sv. add_node oi (term "routesTo") (obj_iri ctx (codes "Service") (ns_option ns) sv))
          (ingress_services o)

  unfoldable pub add_bound : Str → String → Json → Fragment → Fragment
  add_bound oi key o =
      if_some
        (λ v. add_str k.quote oi (term key) (trim_matches (λ b. b == b'"') (k.json_to_string v)))
        (walk o (codes "spec" ∷ codes key ∷ []))

  unfoldable pub add_budget : Str → Json → Fragment → Fragment
  add_budget oi o f =
      f
      ▷ add_type oi (term "PodDisruptionBudget")
      ▷ add_bound oi "minAvailable" o
      ▷ add_bound oi "maxUnavailable" o

  unfoldable pub add_storage_class : Str → Json → Fragment → Fragment
  add_storage_class oi o =
      if_some
        (λ sc. add_node oi (term "usesStorageClass") (obj_iri ctx (codes "StorageClass") none sc))
        (s o (codes "spec" ∷ codes "storageClassName" ∷ []))

  unfoldable pub add_claim : Str → Json → Fragment → Fragment
  add_claim oi o f =
      f
      ▷ add_type oi (term "PersistentVolumeClaim")
      ▷ add_storage_class oi o
      ▷ if_some
          (λ pv. add_node oi (term "boundTo") (obj_iri ctx (codes "PersistentVolume") none pv))
          (s o (codes "spec" ∷ codes "volumeName" ∷ []))

  unfoldable pub is_text : Option Str → Str → Bool
  is_text o t = elim o [ none ↦ false | some x ↦ str_eq x t ]

  -- A match expression of a node affinity that names hosts.
  unfoldable pub add_hosts : Str → Json → Fragment → Fragment
  add_hosts oi e =
      if_true
        (is_text (s e (codes "key" ∷ [])) (codes "kubernetes.io/hostname")
          && is_text (s e (codes "operator" ∷ [])) (codes "In"))
        (for_each (λ nn. add_node oi (term "pinnedToNode") (k8s_node ctx.cid nn))
          (strings (arr e (codes "values" ∷ []))))

  unfoldable pub add_volume_object : Str → Json → Fragment → Fragment
  add_volume_object oi o f =
      f
      ▷ add_type oi (term "PersistentVolume")
      ▷ add_storage_class oi o
      ▷ for_each (λ t. for_each (add_hosts oi) (arr t (codes "matchExpressions" ∷ [])))
          (arr o (
            codes "spec"
            ∷ codes "nodeAffinity"
            ∷ codes "required"
            ∷ codes "nodeSelectorTerms"
            ∷ []))

  -- What a peer allows in one namespace.
  unfoldable pub add_peer_in : Str → Str → Option Json → Str → Fragment → Fragment
  add_peer_in oi prop none pns = add_node oi prop (k8s_namespace ctx.cid pns)
  add_peer_in oi prop (some ps) pns =
      add_selected oi prop (some pns) (λ l. selector_matches (some ps) l true)
        (workloads_in ctx pns)

  -- A peer covers the policy's own namespace unless it selects namespaces.
  unfoldable pub add_peer : Str → Str → Str → Json → Fragment → Fragment
  add_peer oi ns prop peer =
      let nss : List Str = elim (field (codes "namespaceSelector") peer) [
        | none ↦ ns ∷ []
        | some sel ↦ covered sel ctx.ns_meta
      ] in
      for_each (add_peer_in oi prop (field (codes "podSelector") peer)) nss

  -- A rule without peers allows all.
  unfoldable pub add_peers : Str → Str → Str → Str → List Json → Fragment → Fragment
  add_peers oi ns prop all_prop [] = add_bool k.quote oi all_prop true
  add_peers oi ns prop all_prop (p ∷ ps) = for_each (add_peer oi ns prop) (p ∷ ps)

  unfoldable pub add_rules : Str → Str → Str → Str → List Json → Fragment → Fragment
  add_rules oi ns prop all_prop = for_each (λ rule.
      add_peers oi ns prop all_prop (arr rule (codes "from" ∷ []) ++ arr rule (codes "to" ∷ [])))

  unfoldable pub add_policy : Str → Str → Json → Fragment → Fragment
  add_policy oi ns o f =
      let types = policy_types o in
      f
      ▷ add_type oi (term "NetworkPolicy")
      ▷ for_each (add_str k.quote oi (term "policyType")) types
      ▷ add_selected oi (term "appliesTo") (ns_option ns)
          (λ l. selector_matches (walk o (codes "spec" ∷ codes "podSelector" ∷ [])) l true)
          (workloads_in ctx ns)
      ▷ if_true (contains_str (codes "Ingress") types) (
          add_rules oi ns (term "allowsIngressFrom") (term "allowsAllIngress")
            (arr o (codes "spec" ∷ codes "ingress" ∷ [])))
      ▷ if_true (contains_str (codes "Egress") types) (
          add_rules oi ns (term "allowsEgressTo") (term "allowsAllEgress")
            (arr o (codes "spec" ∷ codes "egress" ∷ [])))
