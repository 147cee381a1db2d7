-- ===== src/Kubernetes/Snapshot/Containers.antt =====
-- `container_specs` of snapshot.rs: the containers of a workload with their images, and what the
-- workload mounts and uses.
use nix2rdf.Base.{
  Bool, true, false, Option, none, some, List, [], ◌∷◌, Str, codes, unwrap_or, ◌>>=◌,
}
use nix2rdf.Base.Map
use nix2rdf.Base.Order.{str_ord}
use nix2rdf.Base.Set
use nix2rdf.Base.Steps.{for_each, if_some, if_true, ◌▷◌}
use nix2rdf.Crates.{Crates}
use nix2rdf.Fragment.Build.{add_node, add_type, add_str, add_bool}
use nix2rdf.Fragment.Lines.{Fragment}
use nix2rdf.Hash.Json.{Json}
use nix2rdf.Iri.Instances.{image}
use nix2rdf.Iri.Kubernetes.{k8s_container}
use nix2rdf.Kubernetes.Images.{parse_image_ref, digest_hex}
use nix2rdf.Kubernetes.Objects.{s, arr, kind, name, namespace, pod_spec}
use nix2rdf.Kubernetes.Snapshot.Context.{term, Ctx, obj_iri}

-- The digests that were pulled, by the names of the containers.
abbrev pub Pulled : Type 0
Pulled = List (Str × List Str)

-- The digest of a reference, and those that were pulled for the container.
unfoldable pub digests_of : Option Str → Option (List Str) → List Str
digests_of digest pulled =
    let own : List Str = elim (digest >>= digest_hex) [ none ↦ [] | some h ↦ Set.insert h [] ] in
    elim pulled [ none ↦ own | some p ↦ Set.extend p own ]

module _ (k : Crates) (ctx : Ctx) where
  -- An edge from the workload to an object that `v` names at a path.
  unfoldable pub add_mount : Str → Str → Str → List Str → Json → Fragment → Fragment
  add_mount wi ns kd path v =
      if_some (λ nm. add_node wi (term "mounts") (obj_iri ctx kd (some ns) nm)) (s v path)

  unfoldable pub add_env : Str → Str → Json → Fragment → Fragment
  add_env wi ns e f =
      f
      ▷ add_mount wi ns (codes "ConfigMap")
          (codes "valueFrom" ∷ codes "configMapKeyRef" ∷ codes "name" ∷ []) e
      ▷ add_mount wi ns (codes "Secret")
          (codes "valueFrom" ∷ codes "secretKeyRef" ∷ codes "name" ∷ []) e

  unfoldable pub add_env_from : Str → Str → Json → Fragment → Fragment
  add_env_from wi ns e f =
      f
      ▷ add_mount wi ns (codes "ConfigMap") (codes "configMapRef" ∷ codes "name" ∷ []) e
      ▷ add_mount wi ns (codes "Secret") (codes "secretRef" ∷ codes "name" ∷ []) e

  unfoldable pub add_source : Str → Str → Json → Fragment → Fragment
  add_source wi ns src f =
      f
      ▷ add_mount wi ns (codes "ConfigMap") (codes "configMap" ∷ codes "name" ∷ []) src
      ▷ add_mount wi ns (codes "Secret") (codes "secret" ∷ codes "name" ∷ []) src

  unfoldable pub add_volume : Str → Str → Json → Fragment → Fragment
  add_volume wi ns v f =
      f
      ▷ add_mount wi ns (codes "ConfigMap") (codes "configMap" ∷ codes "name" ∷ []) v
      ▷ add_mount wi ns (codes "Secret") (codes "secret" ∷ codes "secretName" ∷ []) v
      ▷ add_mount wi ns (codes "PersistentVolumeClaim")
          (codes "persistentVolumeClaim" ∷ codes "claimName" ∷ []) v
      ▷ for_each (add_source wi ns) (arr v (codes "projected" ∷ codes "sources" ∷ []))

  unfoldable pub add_template : Str → Json → Fragment → Fragment
  add_template wi t =
      if_some
        (λ sc. add_node wi (term "usesStorageClass") (obj_iri ctx (codes "StorageClass") none sc))
        (s t (codes "spec" ∷ codes "storageClassName" ∷ []))

  -- The images that a container runs, or the mark that none is known.
  unfoldable pub add_images : Str → Str → List Str → Fragment → Fragment
  add_images ci reference [] = add_str k.quote ci (term "unresolvedImage") reference
  add_images ci reference (d ∷ digests) =
      for_each (λ h. add_node ci (term "runsImage") (image h)) (d ∷ digests)

  unfoldable pub add_resource : Str → Json → Str × Str × Str → Fragment → Fragment
  add_resource ci c (prop, from, of) =
      if_some (add_str k.quote ci prop) (s c (codes "resources" ∷ from ∷ of ∷ []))

  abbrev pub resources : List (Str × Str × Str)
  resources =
      (term "requestsCpu", codes "requests", codes "cpu")
      ∷ (term "requestsMemory", codes "requests", codes "memory")
      ∷ (term "limitsCpu", codes "limits", codes "cpu")
      ∷ (term "limitsMemory", codes "limits", codes "memory")
      ∷ []

  unfoldable pub add_container : Json → Str → Str → Pulled → Bool → Json → Fragment → Fragment
  add_container w wi ns pulled init c f =
      let cname = unwrap_or [] (s c (codes "name" ∷ [])) in
      let ci = k8s_container ctx.cid (kind w) ns (name w) cname in
      let reference = unwrap_or [] (s c (codes "image" ∷ [])) in
      let (repo, tag, digest) = parse_image_ref reference in
      f
      ▷ add_type ci (term "ContainerSpec")
      ▷ add_str k.quote ci (term "name") cname
      ▷ add_node wi (term "hasContainer") ci
      ▷ if_true init (add_bool k.quote ci (term "initContainer") true)
      ▷ add_str k.quote ci (term "imageRef") reference
      ▷ add_str k.quote ci (term "imageRepository") repo
      ▷ if_some (add_str k.quote ci (term "imageTag")) tag
      ▷ add_images ci reference (digests_of digest (Map.get cname pulled))
      ▷ for_each (add_resource ci c) resources
      ▷ for_each (add_env wi ns) (arr c (codes "env" ∷ []))
      ▷ for_each (add_env_from wi ns) (arr c (codes "envFrom" ∷ []))

  unfoldable pub service_account : Json → Str
  service_account ps = elim (s ps (codes "serviceAccountName" ∷ [])) [
    | some sa ↦ sa
    | none ↦ unwrap_or (codes "default") (s ps (codes "serviceAccount" ∷ []))
  ]

  unfoldable pub add_pod_spec : Json → Str → Pulled → Json → Fragment → Fragment
  add_pod_spec w wi pulled ps f =
      let ns = unwrap_or (codes "default") (namespace w) in
      f
      ▷ for_each (add_container w wi ns pulled false) (arr ps (codes "containers" ∷ []))
      ▷ for_each (add_container w wi ns pulled true) (arr ps (codes "initContainers" ∷ []))
      ▷ for_each (add_volume wi ns) (arr ps (codes "volumes" ∷ []))
      ▷ for_each (add_template wi) (arr w (codes "spec" ∷ codes "volumeClaimTemplates" ∷ []))
      ▷ add_node wi (term "usesServiceAccount")
          (obj_iri ctx (codes "ServiceAccount") (some ns) (service_account ps))

  unfoldable pub container_specs : Json → Str → Pulled → Fragment → Fragment
  container_specs w wi pulled = if_some (add_pod_spec w wi pulled) (pod_spec w)
