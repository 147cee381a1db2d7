-- ===== src/Kubernetes/Snapshot/ImageLines.antt =====
-- The lines that `container_specs` of k8s/snapshot.rs adds for a container's images.
use mathlib.Core.List.{Memᴰ}
use mathlib.Core.List.Memᴰ
use nix2rdf.Base.{List, [], ◌∷◌, Str, codes, All, unwrap_or}
use nix2rdf.Base.Map
use nix2rdf.Base.Order.{str_ord}
use nix2rdf.Crates.{Crates}
use nix2rdf.Fragment.Grows.{Has, Grows, edge}
use nix2rdf.Fragment.Lines.{Fragment, triple, show_iri}
use nix2rdf.Hash.Json.{Json}
use nix2rdf.Iri.Instances.{image}
use nix2rdf.Iri.Kubernetes.{k8s_container}
use nix2rdf.Kubernetes.Images.{parse_image_ref}
use nix2rdf.Kubernetes.Objects.{s, kind, name, namespace}
use nix2rdf.Kubernetes.Snapshot.Containers.{Pulled, digests_of}
use nix2rdf.Kubernetes.Snapshot.Context.{term, Ctx}

module _ (k : Crates) (ctx : Ctx) where
  -- A line for every digest, or the mark that there is none.
  abbrev pub HasImages : Str → Str → List Str → Fragment → Type 0
  HasImages ci reference [] f =
      Has (triple (show_iri ci) (show_iri (term "unresolvedImage")) (k.quote reference)) f
  HasImages ci reference (d ∷ digests) f =
      All (λ h. Has (edge ci (term "runsImage") (image h)) f) (d ∷ digests)

  -- The name and the image reference of a container, and the digests that are known of it.
  abbrev pub container_iri : Json → Json → Str
  container_iri w c =
      k8s_container ctx.cid (kind w) (unwrap_or (codes "default") (namespace w)) (name w)
        (unwrap_or [] (s c (codes "name" ∷ [])))

  abbrev pub reference_of : Json → Str
  reference_of c = unwrap_or [] (s c (codes "image" ∷ []))

  abbrev pub known_digests : Pulled → Json → List Str
  known_digests pulled c =
      digests_of (parse_image_ref (reference_of c)).2
        (Map.get (unwrap_or [] (s c (codes "name" ∷ []))) pulled)
