-- ===== src/Kubernetes/Stripped.antt =====
-- What is left of an object after `normalize`, and that normalizing it again changes nothing.
use nix2rdf.Base.{◌≡◌, none, some, Str, codes, str_eq, if◌then◌else◌, arith}
use nix2rdf.Hash.Json.{Json, Fields, object, get}
use nix2rdf.Kubernetes.Objects
use nix2rdf.Kubernetes.Objects.{contains_str}
use nix2rdf.Kubernetes.Normalize.{
  remove_all, modify, on_object, volatile, strip_annotations, strip_meta, map_option, get-modify,
  get-remove_all,
}
use nix2rdf.Kubernetes.Remove.{HasUniqueKeys}

-- The keys of one object.
abbrev pub HasKeys : Json → Type 0
HasKeys (object fs) = HasUniqueKeys fs
HasKeys _ = Unit

abbrev clean : Fields → Fields
clean fs = modify (codes "metadata") strip_meta fs

-- A field of stripped metadata: what is volatile is gone, the annotations are stripped, and every
-- other field is as it was. The metadata has no key twice.
pub field-strip_meta :
    (ms : Fields) (j : Str)
    → HasUniqueKeys ms
    → Objects.field j (strip_meta (object ms)) ≡ (
        if contains_str j volatile
        then none
        else if str_eq j (codes "annotations")
        then map_option strip_annotations (get j ms)
        else get j ms)
unfolding Objects.field strip_meta on_object
field-strip_meta ms j u = ground (
  arith,
  get-modify j (codes "annotations") strip_annotations (remove_all volatile ms),
  get-remove_all j volatile ms u,
)

-- Keys of the annotations, too.
abbrev pub HasMetaKeys : Json → Type 0
HasMetaKeys (object ms) =
    HasUniqueKeys ms × ((a : Json) → get (codes "annotations") ms ≡ some a → HasKeys a)
HasMetaKeys _ = Unit
