-- ===== src/Reason/Resolve.antt =====
-- `fragment_for_iri` of crates/nix2rdf-core/src/reason.rs: from an IRI to the fragment that
-- defines it. The outcome is a panic only where `percent_decode` panics.
pub mod RoundTrip
use nix2rdf.Base.{
  ℕ, ◌≡◌, refl, Bool, true, false, Option, none, some, [], ◌∷◌, ◌++◌, arith, Str, codes, str_eq,
  if◌then◌else◌, ◌>>=◌, split_once, rsplit_once, strip_prefix, contains,
}
use nix2rdf.Base.Outcome
use nix2rdf.Base.Outcome.{Outcome, done, panic}
use nix2rdf.Fragment.Kind.{FragmentKind}
use nix2rdf.Iri.Base64.{Base64}
use nix2rdf.Iri.Instances.{id_base, slash}
use nix2rdf.Reason.Percent.{percent_decode}

unfoldable pub decode_nar : Base64 → Str → Str
decode_nar c seg = elim (split_once b'-' seg) [
  | none ↦ seg
  | some (algo, b) ↦ elim (c.url_decode b) [
    | none ↦ seg
    | some bytes ↦ algo ++ (b'-' ∷ c.std_encode bytes)
  ]
]

-- The arms of the match on the first segment, one function each.
abbrev found : FragmentKind → Outcome (Option FragmentKind)
found k = done (some k)

abbrev missing : Outcome (Option FragmentKind)
missing = done none

unfoldable pub resolve_oci : Str → Outcome (Option FragmentKind)
resolve_oci id = elim (strip_prefix (codes "sha256/") id) [
  | none ↦ missing
  | some hex ↦ found (FragmentKind.image hex)
]

unfoldable pub resolve_git : Str → Outcome (Option FragmentKind)
resolve_git id = elim (rsplit_once slash id) [
  | none ↦ missing
  | some (repo, sha) ↦ Outcome.map (λ r. some (FragmentKind.commit r sha)) (percent_decode repo)
]

unfoldable pub resolve_k8s_kind : Str → Str → Str → Outcome (Option FragmentKind)
resolve_k8s_kind cluster k h =
    if str_eq k (codes "snapshot")
    then Outcome.map (λ c. some (FragmentKind.k8s_snapshot c h)) (percent_decode cluster)
    else if str_eq k (codes "nodes")
    then Outcome.map (λ c. some (FragmentKind.k8s_nodes c h)) (percent_decode cluster)
    else missing

unfoldable pub resolve_k8s : Str → Outcome (Option FragmentKind)
resolve_k8s id = elim (split_once slash id) [
  | none ↦ missing
  | some (cluster, rest) ↦ elim (split_once slash rest) [
    | none ↦ missing
    | some (k, h) ↦ resolve_k8s_kind cluster k h
  ]
]

module _ (c : Base64) where
  unfoldable pub resolve_kind : Str → Str → Outcome (Option FragmentKind)
  resolve_kind kind id =
      if str_eq kind (codes "drv")
      then found (FragmentKind.drv id)
      else if str_eq kind (codes "src")
      then found (FragmentKind.src (decode_nar c id))
      else if str_eq kind (codes "pin")
      then (if contains slash id then missing else found (FragmentKind.pin (decode_nar c id)))
      else if str_eq kind (codes "gen")
      then (if contains slash id then missing else found (FragmentKind.gen id))
      else if str_eq kind (codes "nixpkgs")
      then (if contains slash id then missing else found (FragmentKind.nixpkgs id))
      else if str_eq kind (codes "oci")
      then resolve_oci id
      else if str_eq kind (codes "git")
      then resolve_git id
      else if str_eq kind (codes "k8s")
      then resolve_k8s id
      else missing

  unfoldable pub fragment_for_iri : Str → Outcome (Option FragmentKind)
  fragment_for_iri iri = elim (strip_prefix id_base iri) [
    | none ↦ missing
    | some rest ↦ elim (split_once slash rest) [
      | none ↦ missing
      | some (kind, id) ↦ resolve_kind kind id
    ]
  ]
