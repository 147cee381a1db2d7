-- ===== src/Kubernetes/Normalize.antt =====
-- `normalize` of k8s/model.rs strips what changes without the state changing, and every secret.
use nix2rdf.Base.{
  ◌≡◌, refl, ap, ◌∙◌, inl, inr, Bool, true, Option, none, some, List, [], ◌∷◌, Str, codes, str_eq,
  str_eq_refl, eq_of_str_eq, if◌then◌else◌, arith, Bool-cases,
}
use nix2rdf.Hash.Json.{Json, Fields, end, field, object, get}
use nix2rdf.Kubernetes.Objects.{kind, contains_str}
use nix2rdf.Kubernetes.Remove.{
  remove, HasUniqueKeys, get-remove, remove_of_missing, remove-HasUniqueKeys,
}

unfoldable pub remove_all : List Str → Fields → Fields
remove_all [] fs = fs
remove_all (k ∷ ks) fs = remove_all ks (remove k fs)

-- A change of one field in its place, through `get_mut`.
unfoldable pub modify : Str → (Json → Json) → Fields → Fields
modify k f end = end
modify k f (field j v fs) =
    let rest = field j v (modify k f fs) in if str_eq k j then field j (f v) fs else rest

unfoldable pub on_object : (Fields → Fields) → Json → Json
on_object f (object fs) = object (f fs)
on_object f v = v

unfoldable pub volatile : List Str
volatile =
    codes "resourceVersion"
    ∷ codes "uid"
    ∷ codes "managedFields"
    ∷ codes "creationTimestamp"
    ∷ codes "generation"
    ∷ codes "selfLink"
    ∷ codes "deletionTimestamp"
    ∷ codes "deletionGracePeriodSeconds"
    ∷ []

unfoldable pub volatile_annotations : List Str
volatile_annotations =
    codes "kubectl.kubernetes.io/last-applied-configuration"
    ∷ codes "deployment.kubernetes.io/revision"
    ∷ []

unfoldable pub secret_fields : List Str
secret_fields = codes "data" ∷ codes "stringData" ∷ []

unfoldable pub strip_annotations : Json → Json
strip_annotations v = on_object (remove_all volatile_annotations) v

unfoldable pub strip_meta : Json → Json
strip_meta v =
    on_object (λ fs. modify (codes "annotations") strip_annotations (remove_all volatile fs)) v

unfoldable pub is_secret : Json → Bool
is_secret v = str_eq (kind v) (codes "Secret")

unfoldable pub normalize : Json → Json
normalize v =
    let w = on_object (modify (codes "metadata") strip_meta) v in
    if is_secret w then on_object (remove_all secret_fields) w else w

abbrev pub map_option : (Json → Json) → Option Json → Option Json
map_option f none = none
map_option f (some v) = some (f v)

pub get-modify :
    (j k : Str) (f : Json → Json) (fs : Fields)
    → get j (modify k f fs) ≡ (if str_eq j k then map_option f (get j fs) else get j fs)
unfolding modify get
get-modify j k f end = ground arith
get-modify j k f (field i v fs) =
    ground (arith, get-modify j k f fs, eq_of_str_eq k i, eq_of_str_eq j k, str_eq_refl k)

pub modify-HasUniqueKeys :
    (k : Str) (f : Json → Json) (fs : Fields) → HasUniqueKeys fs → HasUniqueKeys (modify k f fs)
unfolding modify
modify-HasUniqueKeys k f end u = tt
modify-HasUniqueKeys k f (field j v fs) (h, u) =
    ground (arith, modify-HasUniqueKeys k f fs u, get-modify j k f fs)

-- Nothing changes where the value is a fixed point.
pub modify_of_fixed :
    (k : Str) (f : Json → Json) (fs : Fields)
    → ((v : Json) → get k fs ≡ some v → f v ≡ v)
    → modify k f fs ≡ fs
unfolding modify get
modify_of_fixed k f end h = refl
modify_of_fixed k f (field j v fs) h = elim (Bool-cases (str_eq k j)) [
  | inl same ↦ ground (arith, h v (ground arith))
  | inr other ↦ ground (arith, modify_of_fixed k f fs (λ w e. h w (ground arith)))
]

pub remove_all-HasUniqueKeys :
    (ks : List Str) (fs : Fields) → HasUniqueKeys fs → HasUniqueKeys (remove_all ks fs)
unfolding remove_all
remove_all-HasUniqueKeys [] fs u = u
remove_all-HasUniqueKeys (k ∷ ks) fs u =
    remove_all-HasUniqueKeys ks (remove k fs) (remove-HasUniqueKeys k fs u)

pub get-remove_all :
    (j : Str) (ks : List Str) (fs : Fields)
    → HasUniqueKeys fs
    → get j (remove_all ks fs) ≡ (if contains_str j ks then none else get j fs)
unfolding remove_all contains_str
get-remove_all j [] fs u = refl
get-remove_all j (k ∷ ks) fs u = ground (
  arith,
  get-remove_all j ks (remove k fs) (remove-HasUniqueKeys k fs u),
  get-remove j k fs u,
  eq_of_str_eq k j,
  eq_of_str_eq j k,
  str_eq_refl k,
  str_eq_refl j,
)

pub remove_all_of_missing :
    (ks : List Str) (fs : Fields)
    → ((k : Str) → contains_str k ks ≡ true → get k fs ≡ none)
    → remove_all ks fs ≡ fs
unfolding remove_all contains_str
remove_all_of_missing [] fs h = refl
remove_all_of_missing (k ∷ ks) fs h =
    let e = remove_of_missing k fs (h k (ground (arith, str_eq_refl k))) in
    ap (remove_all ks) e ∙ remove_all_of_missing ks fs (λ j m. h j (ground arith))
