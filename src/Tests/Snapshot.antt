-- ===== src/Tests/Snapshot.antt =====
-- A deployment with a replica set and a pod.
use nix2rdf.Base.{false, ◌⊎◌, ◌≡◌, refl, true, some, [], ◌∷◌, Str, codes, inl, inr, str_eq}
use nix2rdf.Base.{sym, ap, ◌∙◌, ◌≢◌}
use mathlib.Core.List.{Permᴰ}
use mathlib.Core.List.Permᴰ
use nix2rdf.Base.Map
use nix2rdf.Fragment.Lines.{Fragment}
use nix2rdf.Kubernetes.Snapshot.Build.{pending}
use nix2rdf.Kubernetes.Snapshot.Context.{obj_iri}
use nix2rdf.Kubernetes.Snapshot.Context
use nix2rdf.Kubernetes.Snapshot.Policies.{ns_option}
use nix2rdf.Base.Order.{str_ord}
use nix2rdf.Hash.Json.{Json, Fields, Items, get}
use nix2rdf.Kubernetes.Objects
use nix2rdf.Kubernetes.Snapshot.Build.{build_snapshot}
use nix2rdf.Kubernetes.Snapshot.Context.{
  StateKind, live, LabelConfig, SnapshotOptions, SnapshotInput, Key, Ctx, key_of,
}
use nix2rdf.Kubernetes.Snapshot.Identity.{build_snapshot-Perm}
use nix2rdf.Kubernetes.Snapshot.Order.{IsUnique}
use nix2rdf.Tests.Sample.{crates}

abbrev text : Str → Json
text s = Json.string s

abbrev one : Json → Json
one v = Json.array (Items.cons v Items.nil)

abbrev reference : Str → Str → Json
reference kd nm =
    Json.object
      (Fields.field (codes "kind") (text kd) (Fields.field (codes "name") (text nm) Fields.end))

abbrev resource : Str → Str → Fields → Fields → Json
resource kd nm meta rest = Json.object (
    Fields.field (codes "kind") (text kd) (
      Fields.field (codes "metadata") (Json.object (Fields.field (codes "name") (text nm) meta))
        rest))

abbrev container : Json
container = Json.object (
    Fields.field (codes "name") (text (codes "c"))
      (Fields.field (codes "image") (text (codes "registry/i:1")) Fields.end))

abbrev spec : Json
spec = Json.object (Fields.field (codes "containers") (one container) Fields.end)

abbrev deployment : Json
deployment = resource (codes "Deployment") (codes "d") Fields.end (
    Fields.field (codes "spec")
      (Json.object (
        Fields.field (codes "template") (Json.object (Fields.field (codes "spec") spec Fields.end))
          Fields.end))
      Fields.end)

abbrev owned : Str → Str → Fields
owned kd nm = Fields.field (codes "ownerReferences") (one (reference kd nm)) Fields.end

abbrev replicas : Json
replicas =
    resource (codes "ReplicaSet") (codes "r") (owned (codes "Deployment") (codes "d")) Fields.end

abbrev pod : Json
pod = resource (codes "Pod") (codes "p") (owned (codes "ReplicaSet") (codes "r")) Fields.end

abbrev opts : SnapshotOptions
opts = record {
  cluster_id = codes "k";
  state = live;
  labels = record {
    owner_keys = codes "team" ∷ [];
    cost_center_keys = [];
    zone_keys = [];
    region_keys = [];
    rack_key = codes "rack";
    site_key = codes "site";
    generation_annotation = codes "generation";
    exempt_single_domain_annotation = codes "exempt";
  };
  node_map = [];
  observed_at = codes "2025-01-01T00:00:00Z";
}

abbrev ctx : Ctx
ctx = record {
  cid = codes "k";
  cfg = opts.labels;
  index =
      ((codes "Deployment", (codes "default", codes "d")), deployment)
      ∷ ((codes "ReplicaSet", (codes "default", codes "r")), replicas)
      ∷ [];
  ns_meta = [];
}

abbrev IsOneOf : Json → Type 0
IsOneOf o = (o ≡ deployment) ⊎ (o ≡ replicas)

keys_differ : key_of deployment ≢ key_of replicas
unfolding key_of Objects.kind Objects.name Objects.namespace Objects.contains_str Objects.walk
    Objects.field get str_eq Objects.s Objects.as_str
keys_differ e = let h : true ≡ false = ap (λ k. str_eq k.0 (codes "Deployment")) e in cc h

IsOneOf-IsUnique : IsUnique IsOneOf
IsOneOf-IsUnique a b (inl p) (inl q) e = p ∙ sym q
IsOneOf-IsUnique a b (inr p) (inr q) e = p ∙ sym q
IsOneOf-IsUnique a b (inl p) (inr q) e = absurd (keys_differ (ap key_of (sym p) ∙ e ∙ ap key_of q))
IsOneOf-IsUnique a b (inr p) (inl q) e =
    absurd (keys_differ (ap key_of (sym q) ∙ sym e ∙ ap key_of p))

build_snapshot-Perm_example :
    build_snapshot crates
      (λ t. some [])
      (record { objects = deployment ∷ replicas ∷ []; pods = pod ∷ []; failed_kinds = [] })
      opts
    ≡ build_snapshot crates
        (λ t. some [])
        (record { objects = replicas ∷ deployment ∷ []; pods = pod ∷ []; failed_kinds = [] })
        opts
build_snapshot-Perm_example =
    build_snapshot-Perm crates (λ t. some []) opts [] IsOneOf IsOneOf-IsUnique
      (deployment ∷ replicas ∷ []) (replicas ∷ deployment ∷ []) (pod ∷ []) (pod ∷ [])
      (Permᴰ.swap refl refl) (inl refl, (inr refl, tt)) (Permᴰ.refl _)

abbrev iri : Str
iri = obj_iri ctx (codes "Deployment") (ns_option (codes "default")) (codes "d")

abbrev snapshot : Fragment
snapshot = pending crates ctx [] opts [] [] []
