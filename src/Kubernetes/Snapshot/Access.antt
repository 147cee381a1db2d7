-- ===== src/Kubernetes/Snapshot/Access.antt =====
-- Of the match in `build_snapshot`: roles with what they permit, and their bindings.
use Prim.Native.String.{String}
use nix2rdf.Base.{
  false, not, ◌&&◌, none, some, List, [], ◌∷◌, Str, codes, str_eq, if◌then◌else◌, unwrap_or,
}
use nix2rdf.Base.Steps.{for_each, if_true, ◌▷◌}
use nix2rdf.Crates.{Crates}
use nix2rdf.Fragment.Build.{add_node, add_type, add_str}
use nix2rdf.Fragment.Lines.{Fragment}
use nix2rdf.Hash.Json.{Json}
use nix2rdf.Iri.Kubernetes.{k8s_permission}
use nix2rdf.Kubernetes.Objects.{s, arr, name, labels, as_str, strings, selector_matches}
use nix2rdf.Kubernetes.Snapshot.Context.{term, Ctx, obj_iri, of_kind}
use nix2rdf.Kubernetes.Snapshot.Policies.{ns_option}
use nix2rdf.Kubernetes.Snapshot.Pods.{text_at}

-- The groups of a rule; the core group, named by no text, where none is given.
unfoldable pub rule_groups : Json → List Str
rule_groups rule = elim (strings (arr rule (codes "apiGroups" ∷ []))) [
  | [] ↦ [] ∷ []
  | g ∷ groups ↦ g ∷ groups
]

module _ (k : Crates) (ctx : Ctx) where
  unfoldable pub add_permission : Str → Str → Str → Str → Fragment → Fragment
  add_permission oi g r v f =
      let pi = k8s_permission ctx.cid g r v in
      f
      ▷ add_type pi (term "Permission")
      ▷ add_str k.quote pi (term "apiGroup") g
      ▷ add_str k.quote pi (term "resource") r
      ▷ add_str k.quote pi (term "verb") v
      ▷ add_node oi (term "permits") pi

  -- Every verb on every resource of every group.
  unfoldable pub add_rule : Str → Json → Fragment → Fragment
  add_rule oi rule =
      for_each
        (λ g.
          for_each
            (λ r.
              for_each
                (λ v. add_permission oi g (unwrap_or [] (as_str r)) (unwrap_or [] (as_str v)))
                (arr rule (codes "verbs" ∷ [])))
            (arr rule (codes "resources" ∷ [])))
        (rule_groups rule)

  -- The other cluster roles that one selector aggregates.
  unfoldable pub add_aggregated : Str → Str → Json → Fragment → Fragment
  add_aggregated oi nm sel =
      for_each
        (λ other.
          if_true (not (str_eq (name other) nm) && selector_matches (some sel) (labels other) false)
            (add_node oi (term "aggregates") (obj_iri ctx (codes "ClusterRole") none (name other))))
        (of_kind ctx (codes "ClusterRole"))

  unfoldable pub add_role_object : Str → Str → Str → Json → Fragment → Fragment
  add_role_object kd oi nm o f =
      f
      ▷ add_type oi (if str_eq kd (codes "Role") then term "Role" else term "ClusterRole")
      ▷ for_each (add_rule oi) (arr o (codes "rules" ∷ []))
      ▷ if_true (str_eq kd (codes "ClusterRole")) (
          for_each (add_aggregated oi nm)
            (arr o (codes "aggregationRule" ∷ codes "clusterRoleSelectors" ∷ [])))

  unfoldable pub role_of : Str → Json → Str
  role_of ns o =
      let rn = unwrap_or [] (s o (codes "roleRef" ∷ codes "name" ∷ [])) in
      if str_eq (unwrap_or [] (s o (codes "roleRef" ∷ codes "kind" ∷ []))) (codes "ClusterRole")
      then obj_iri ctx (codes "ClusterRole") none rn
      else obj_iri ctx (codes "Role") (ns_option ns) rn

  -- A user or a group, which is not an object of the cluster.
  unfoldable pub add_named : Str → Str → String → Str → Fragment → Fragment
  add_named oi sn class subj f =
      f
      ▷ add_type subj (term class)
      ▷ add_str k.quote subj (term "name") sn
      ▷ add_node oi (term "subjectOf") subj

  unfoldable pub subject_namespace : Str → Json → Str
  subject_namespace ns sub = elim (s sub (codes "namespace" ∷ [])) [
    | some sns ↦ sns
    | none ↦ unwrap_or (codes "default") (ns_option ns)
  ]

  unfoldable pub add_subject : Str → Str → Json → Fragment → Fragment
  add_subject oi ns sub =
      let sk = text_at sub (codes "kind") in
      let sn = text_at sub (codes "name") in
      if str_eq sk (codes "ServiceAccount")
      then add_node oi (term "subjectOf")
          (obj_iri ctx (codes "ServiceAccount") (some (subject_namespace ns sub)) sn)
      else if str_eq sk (codes "User")
      then add_named oi sn "User" (obj_iri ctx (codes "user") none sn)
      else add_named oi sn "Group" (obj_iri ctx (codes "group") none sn)

  unfoldable pub add_binding : Str → Str → Str → Json → Fragment → Fragment
  add_binding kd oi ns o f =
      f
      ▷ add_type oi (
          if str_eq kd (codes "RoleBinding") then term "RoleBinding" else term "ClusterRoleBinding")
      ▷ add_node oi (term "grants") (role_of ns o)
      ▷ for_each (add_subject oi ns) (arr o (codes "subjects" ∷ []))
