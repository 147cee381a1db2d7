-- ===== src/Extract/Flake/Reference.antt =====
-- `str_of`, `flake_ref_string` and `add_pin` of flake.rs.
use Prim.Native.String.{String}
use nix2rdf.Base.{
  ◌||◌, Option, none, some, List, [], ◌∷◌, ◌++◌, Str, codes, str_eq, if◌then◌else◌, unwrap_or,
  ◌>>=◌,
}
use nix2rdf.Base.Steps.{if_some, ◌▷◌}
use nix2rdf.Crates.{Crates}
use nix2rdf.Fragment.Build.{add_type, add_str, add_int}
use nix2rdf.Fragment.Lines.{Fragment}
use nix2rdf.Hash.Json.{Json, canonical_json}
use nix2rdf.Kubernetes.Objects.{field, as_str}
use nix2rdf.Kubernetes.Snapshot.Workloads.{as_i64}
use nix2rdf.Vocab.{nix}

unfoldable pub str_of : Json → Str → Option Str
str_of v key = field key v >>= as_str

unfoldable pub text_of : Json → String → Str
text_of v key = unwrap_or [] (str_of v (codes key))

-- `join`
unfoldable pub join : Str → List Str → Str
join sep [] = []
join sep (x ∷ []) = x
join sep (x ∷ y ∷ xs) = x ++ (sep ++ join sep (y ∷ xs))

-- A prefix and the value of a key, where it is there.
unfoldable pub labelled : String → Option Str → Str
labelled prefix none = []
labelled prefix (some v) = codes prefix ++ v

unfoldable pub forge_ref : Str → Json → Str
forge_ref ty o =
    let at : Str = elim (str_of o (codes "rev")) [
      | some r ↦ b'/' ∷ r
      | none ↦ labelled "/" (str_of o (codes "ref"))
    ] in
    ty
    ++ (b':'
        ∷ (text_of o "owner"
            ++ (b'/' ∷ (text_of o "repo" ++ (at ++ labelled "?dir=" (str_of o (codes "dir")))))))

-- `ref=…` and `rev=…`, each where it is there.
unfoldable pub query : Json → List Str
query o =
    let part : String → Str → List Str =
      λ prefix key. elim (str_of o key) [ none ↦ [] | some r ↦ (codes prefix ++ r) ∷ [] ] in
    part "ref=" (codes "ref") ++ part "rev=" (codes "rev")

unfoldable pub with_query : List Str → Str
with_query [] = []
with_query (q ∷ qs) = b'?' ∷ join (codes "&") (q ∷ qs)

unfoldable pub flake_ref_string : Crates → Json → Str
flake_ref_string k o =
    let ty = text_of o "type" in
    if str_eq ty (codes "github") || (str_eq ty (codes "gitlab") || str_eq ty (codes "sourcehut"))
    then forge_ref ty o
    else if str_eq ty (codes "indirect")
    then codes "flake:" ++ text_of o "id"
    else if str_eq ty (codes "path")
    then codes "path:" ++ text_of o "path"
    else if str_eq ty (codes "git")
        || (str_eq ty (codes "hg") || (str_eq ty (codes "tarball") || str_eq ty (codes "file")))
    then ty ++ (b'+' ∷ (text_of o "url" ++ with_query (query o)))
    else canonical_json k.json_to_string o

-- A property of a pin that the locked node has under a key.
unfoldable pub add_locked : Crates → Str → Json → String → String → Fragment → Fragment
add_locked k pin locked term key =
    if_some (add_str k.quote pin (nix (codes term))) (str_of locked (codes key))

unfoldable pub add_pin : Crates → Str → Json → Fragment → Fragment
add_pin k pin locked f =
    f
    ▷ add_type pin (nix (codes "FlakePin"))
    ▷ add_locked k pin locked "narHash" "narHash"
    ▷ add_locked k pin locked "lockedType" "type"
    ▷ add_locked k pin locked "rev" "rev"
    ▷ add_locked k pin locked "ref" "ref"
    ▷ add_locked k pin locked "lockedOwner" "owner"
    ▷ add_locked k pin locked "lockedRepo" "repo"
    ▷ add_locked k pin locked "lockedUrl" "url"
    ▷ add_locked k pin locked "lockedDir" "dir"
    ▷ if_some (add_int k.quote pin (nix (codes "lastModified")))
        (field (codes "lastModified") locked >>= as_i64)
