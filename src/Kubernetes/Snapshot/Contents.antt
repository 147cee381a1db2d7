-- ===== src/Kubernetes/Snapshot/Contents.antt =====
-- The loop of `build_snapshot` in k8s/snapshot.rs over the index, and the lines that it adds.
use nix2rdf.Base.{true, Option, none, some, List, Str, codes}
use nix2rdf.Base.Order.{str_ord}
use nix2rdf.Base.Steps.{if_true}
use nix2rdf.Crates.{Crates}
use nix2rdf.Fragment.Build.{show_typed, show_bool}
use nix2rdf.Fragment.Grows.{Grows, edge}
use nix2rdf.Fragment.Lines.{Fragment, triple, show_iri}
use nix2rdf.Hash.Json.{Json}
use nix2rdf.Iri.Kubernetes.{owner as owner_iri}
use nix2rdf.Kubernetes.Objects.{labels, annotations}
use nix2rdf.Kubernetes.Snapshot.Build.{add_object, is_listed}
use nix2rdf.Kubernetes.Snapshot.Context.{term, Key, Ctx, owner}
use nix2rdf.Kubernetes.Snapshot.Pods.{Placement, AllPulled}
use nix2rdf.Kubernetes.Snapshot.Policies.{ns_option}
use nix2rdf.Vocab.{xsd}

module _ (k : Crates) (ctx : Ctx) where
  -- What a snapshot says of the owner of an object.
  abbrev pub owner_line : Str → Option Str → Str
  owner_line oi none =
      triple (show_iri oi) (show_iri (term "ownerUnknown"))
        (show_typed k.quote (show_bool true) (xsd (codes "boolean")))
  owner_line oi (some ow) = edge oi (term "ownedBy") (owner_iri ow)

  abbrev owner_of : Str → Json → Option Str
  owner_of ns o = owner ctx (labels o) (annotations o) (ns_option ns)

  module _ (placement : Placement) (pulled : AllPulled) (snap : Str) where
    listed_step : Key × Json → Fragment → Fragment
    listed_step e = if_true (is_listed e) (add_object k ctx placement pulled snap e)
