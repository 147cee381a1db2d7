-- ===== src/Kubernetes/Snapshot/Context.antt =====
-- The types of snapshot.rs, `LabelConfig`, and `Ctx` with its methods.
use Prim.Native.String.{String}
use nix2rdf.Base.{
  Bool, ◌||◌, not, Option, none, some, List, [], ◌∷◌, ◌++◌, Str, codes, str_eq, if◌then◌else◌,
  unwrap_or, ◌>>=◌,
}
use nix2rdf.Base.Map
use nix2rdf.Base.Order.{Ord, str_ord, pair_ord}
use nix2rdf.Base.Steps.{for_each}
use nix2rdf.Crates.{Crates}
use nix2rdf.Fragment.Build.{add_str}
use nix2rdf.Fragment.Lines.{Fragment}
use nix2rdf.Hash.Json.{Json}
use nix2rdf.Iri.Kubernetes.{k8s_node, k8s_namespace, k8s_obj}
use nix2rdf.Kubernetes.Objects.{Labels, kind, name, namespace, labels, annotations, contains_str}
use nix2rdf.Vocab.{k8s}

abbrev pub term : String → Str
term x = k8s (codes x)

pub data StateKind : Type 0 where
  live desired : StateKind

pub record LabelConfig : Type 0 where
  pub owner_keys : List Str
  pub cost_center_keys : List Str
  pub zone_keys : List Str
  pub region_keys : List Str
  pub rack_key : Str
  pub site_key : Str
  pub generation_annotation : Str
  pub exempt_single_domain_annotation : Str

-- The time of the observation is given.
pub record SnapshotOptions : Type 0 where
  pub cluster_id : Str
  pub state : StateKind
  pub labels : LabelConfig
  pub node_map : List (Str × Str)
  pub observed_at : Str

pub record SnapshotInput : Type 0 where
  pub objects : List Json
  pub pods : List Json
  pub failed_kinds : List Str

-- Kind, namespace and name.
abbrev pub Key : Type 0
Key = Str × (Str × Str)

instance abbrev pub key_ord : Ord Key
key_ord = pair_ord

abbrev pub Index : Type 0
Index = List (Key × Json)

abbrev pub NsMeta : Type 0
NsMeta = List (Str × (Labels × Labels))

pub record Ctx : Type 0 where
  pub cid : Str
  pub cfg : LabelConfig
  pub index : Index
  pub ns_meta : NsMeta

abbrev pub workload_kinds : List Str
workload_kinds =
    codes "Deployment"
    ∷ codes "StatefulSet"
    ∷ codes "DaemonSet"
    ∷ codes "Job"
    ∷ codes "CronJob"
    ∷ []

abbrev pub cluster_kinds : List Str
cluster_kinds =
    codes "Node"
    ∷ codes "Namespace"
    ∷ codes "PersistentVolume"
    ∷ codes "StorageClass"
    ∷ codes "ClusterRole"
    ∷ codes "ClusterRoleBinding"
    ∷ []

unfoldable pub is_workload : Str → Bool
is_workload kd = contains_str kd workload_kinds

-- The key of an object; an object of a kind of the cluster has no namespace.
unfoldable pub key_of : Json → Key
key_of o =
    let ns =
      if contains_str (kind o) cluster_kinds
      then []
      else unwrap_or (codes "default") (namespace o) in
    (kind o, (ns, name o))

-- An object without a kind and a pod are left out.
unfoldable pub is_indexed : Json → Bool
is_indexed o = not (str_eq (kind o) [] || str_eq (kind o) (codes "Pod"))

unfoldable pub add_index : Json → Index → Index
add_index o index = if is_indexed o then Map.insert (key_of o) o index else index

unfoldable pub add_ns_meta : Json → NsMeta → NsMeta
add_ns_meta o ns_meta =
    if str_eq (kind o) (codes "Namespace")
    then Map.insert (name o) (labels o, annotations o) ns_meta
    else ns_meta

-- The loop over the objects; it fills both maps.
unfoldable pub context : SnapshotInput → SnapshotOptions → Ctx
context input opts = record {
  cid = opts.cluster_id;
  cfg = opts.labels;
  index = for_each add_index input.objects [];
  ns_meta = for_each add_ns_meta input.objects [];
}

-- The value of the first of the keys that the labels have.
unfoldable pub find_key : List Str → Labels → Option Str
find_key [] labels = none
find_key (key ∷ keys) labels = elim (Map.get key labels) [
  | some v ↦ some v
  | none ↦ find_key keys labels
]

unfoldable pub first_key : List Str → Labels → Labels → Option Str
first_key keys labels ann = elim (find_key keys labels) [
  | some v ↦ some v
  | none ↦ find_key keys ann
]

unfoldable pub select_kind : Str → Index → List Json
select_kind kd [] = []
select_kind kd (((k, (ns, nm)), o) ∷ index) =
    let rest = select_kind kd index in if str_eq k kd then o ∷ rest else rest

unfoldable pub select_workloads : Str → Index → List Json
select_workloads ns [] = []
select_workloads ns (((wk, (wns, nm)), o) ∷ index) =
    let rest = select_workloads ns index in
    if is_workload wk then if str_eq wns ns then o ∷ rest else rest else rest

module _ (ctx : Ctx) where
  unfoldable pub get : Str → Str → Str → Option Json
  get kd ns nm = Map.get (kd, (ns, nm)) ctx.index

  unfoldable pub of_kind : Str → List Json
  of_kind kd = select_kind kd ctx.index

  -- The workloads of a namespace.
  unfoldable pub workloads_in : Str → List Json
  workloads_in ns = select_workloads ns ctx.index

  unfoldable pub obj_iri : Str → Option Str → Str → Str
  obj_iri kd ns nm =
      if str_eq kd (codes "Node")
      then k8s_node ctx.cid nm
      else if str_eq kd (codes "Namespace")
      then k8s_namespace ctx.cid nm
      else k8s_obj ctx.cid kd ns nm

  unfoldable pub labels_in : Option Str → Labels × Labels
  labels_in ns = unwrap_or ([], []) (ns >>= λ n. Map.get n ctx.ns_meta)

  -- `owner` and `cost_center`, which differ in the keys.
  unfoldable pub inherited : List Str → Labels → Labels → Option Str → Option Str
  inherited keys labels ann ns = elim (first_key keys labels ann) [
    | some v ↦ some v
    | none ↦ let (nl, na) = labels_in ns in first_key keys nl na
  ]

  unfoldable pub owner : Labels → Labels → Option Str → Option Str
  owner = inherited ctx.cfg.owner_keys

  unfoldable pub cost_center : Labels → Labels → Option Str → Option Str
  cost_center = inherited ctx.cfg.cost_center_keys

unfoldable pub add_labels : Crates → Str → Labels → Fragment → Fragment
add_labels k subj = for_each (λ (key, v). add_str k.quote subj (term "label") (key ++ (b'=' ∷ v)))
