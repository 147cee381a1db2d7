-- ===== src/Kubernetes/Objects.antt =====
-- The accessors and the selectors of k8s/model.rs, over JSON values.
use nix2rdf.Base.{
  Bool, true, false, ◌&&◌, not, Option, none, some, List, [], ◌∷◌, Str, codes, str_eq,
  if◌then◌else◌, ◌>>=◌, unwrap_or, is_some, is_none, any,
}
use nix2rdf.Base.Map
use nix2rdf.Base.Order.{str_ord}
use nix2rdf.Hash.Json
use nix2rdf.Hash.Json.{Json, Fields, Items}

abbrev pub Labels : Type 0
Labels = List (Str × Str)

-- `Value::get` with a key
unfoldable pub field : Str → Json → Option Json
field k (Json.object fs) = Json.get k fs
field k _ = none

unfoldable pub walk : Json → List Str → Option Json
walk v [] = some v
walk v (p ∷ path) = field p v >>= λ w. walk w path

unfoldable pub as_str : Json → Option Str
as_str (Json.string s) = some s
as_str _ = none

unfoldable pub s : Json → List Str → Option Str
s v path = walk v path >>= as_str

unfoldable pub elements : Items → List Json
elements Items.nil = []
elements (Items.cons v xs) = v ∷ elements xs

unfoldable pub arr : Json → List Str → List Json
arr v path = elim (walk v path) [
  | none ↦ []
  | some w ↦ elim w [ Json.array xs ↦ elements xs | _ ↦ [] ]
]

-- The fields that are strings; a later one of a key replaces an earlier one.
unfoldable pub labels_of : Fields → Labels → Labels
labels_of Fields.end m = m
labels_of (Fields.field k v fs) m = elim (as_str v) [
  | none ↦ labels_of fs m
  | some x ↦ labels_of fs (Map.insert k x m)
]

unfoldable pub map : Json → List Str → Labels
map v path = elim (walk v path) [
  | none ↦ []
  | some w ↦ elim w [ Json.object fs ↦ labels_of fs [] | _ ↦ [] ]
]

unfoldable pub kind : Json → Str
kind v = unwrap_or [] (s v (codes "kind" ∷ []))

unfoldable pub name : Json → Str
name v = unwrap_or [] (s v (codes "metadata" ∷ codes "name" ∷ []))

unfoldable pub namespace : Json → Option Str
namespace v = s v (codes "metadata" ∷ codes "namespace" ∷ [])

unfoldable pub labels : Json → Labels
labels v = map v (codes "metadata" ∷ codes "labels" ∷ [])

unfoldable pub annotations : Json → Labels
annotations v = map v (codes "metadata" ∷ codes "annotations" ∷ [])

unfoldable pub pod_spec : Json → Option Json
pod_spec w =
    if str_eq (kind w) (codes "CronJob")
    then walk w
        (codes "spec" ∷ codes "jobTemplate" ∷ codes "spec" ∷ codes "template" ∷ codes "spec" ∷ [])
    else walk w (codes "spec" ∷ codes "template" ∷ codes "spec" ∷ [])

unfoldable pub pod_labels : Json → Labels
pod_labels w =
    if str_eq (kind w) (codes "CronJob")
    then map w (
        codes "spec"
        ∷ codes "jobTemplate"
        ∷ codes "spec"
        ∷ codes "template"
        ∷ codes "metadata"
        ∷ codes "labels"
        ∷ [])
    else map w (codes "spec" ∷ codes "template" ∷ codes "metadata" ∷ codes "labels" ∷ [])

unfoldable pub contains_str : Str → List Str → Bool
contains_str x values = any (λ v. str_eq v x) values

-- `labels.get(k) == Some(v)`
unfoldable pub has_label : Labels → Str → Str → Bool
has_label labels k v = elim (Map.get k labels) [ none ↦ false | some w ↦ str_eq w v ]

unfoldable pub strings : List Json → List Str
strings [] = []
strings (v ∷ vs) = elim (as_str v) [ none ↦ strings vs | some x ↦ x ∷ strings vs ]

-- One match expression.
unfoldable pub holds : Labels → Json → Bool
holds labels e =
    let have = Map.get (unwrap_or [] (s e (codes "key" ∷ []))) labels in
    let op = unwrap_or [] (s e (codes "operator" ∷ [])) in
    let values = strings (arr e (codes "values" ∷ [])) in
    if str_eq op (codes "In")
    then elim have [ none ↦ false | some h ↦ contains_str h values ]
    else if str_eq op (codes "NotIn")
    then elim have [ none ↦ true | some h ↦ not (contains_str h values) ]
    else if str_eq op (codes "Exists")
    then is_some have
    else if str_eq op (codes "DoesNotExist")
    then is_none have
    else false

unfoldable pub all_labels : Labels → Labels → Bool
all_labels [] labels = true
all_labels ((k, v) ∷ ml) labels = has_label labels k v && all_labels ml labels

unfoldable pub all_hold : Labels → List Json → Bool
all_hold labels [] = true
all_hold labels (e ∷ es) = holds labels e && all_hold labels es

unfoldable pub selects : Labels → List Json → Labels → Bool → Bool
selects [] [] labels empty_matches_all = empty_matches_all
selects ml exprs labels empty_matches_all = all_labels ml labels && all_hold labels exprs

unfoldable pub selector_matches : Option Json → Labels → Bool → Bool
selector_matches none labels empty_matches_all = empty_matches_all
selector_matches (some sel) labels empty_matches_all =
    selects (map sel (codes "matchLabels" ∷ [])) (arr sel (codes "matchExpressions" ∷ [])) labels
      empty_matches_all

unfoldable pub plain_selector_matches : Labels → Labels → Bool
plain_selector_matches [] labels = false
plain_selector_matches ((k, v) ∷ sel) labels = all_labels ((k, v) ∷ sel) labels
