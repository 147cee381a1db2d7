-- ===== src/Kubernetes/Snapshot/Identity.antt =====
-- The whole of `build_snapshot` in k8s/snapshot.rs, with its objects in another order.
use mathlib.Core.List.{Permᴰ}
use nix2rdf.Base.{◌≡◌, ap, ◌∙◌, Option, List, Str, All}
use nix2rdf.Crates.{Crates}
use nix2rdf.Fragment.Lines.{Quad}
use nix2rdf.Hash.Json.{Json}
use nix2rdf.Kubernetes.Snapshot.Build.{build_snapshot, snapshot_of, of_parts}
use nix2rdf.Kubernetes.Snapshot.Context.{SnapshotOptions, context}
use nix2rdf.Kubernetes.Snapshot.Order.{IsUnique, context-Perm, pods-Perm}
use nix2rdf.Kubernetes.Snapshot.Pods.{placement_of, pulled_of}

-- The three fragments and the hashes are the same in whatever order the objects and the pods of a
-- cluster are listed, where objects of one kind, namespace and name are equal.
pub build_snapshot-Perm :
    (k : Crates) (parse_nquads : Str → Option (List Quad)) (opts : SnapshotOptions)
    → (failed : List Str) (P : Json → Type 0) → IsUnique P
    → (xs ys pods pods' : List Json) → Permᴰ xs ys
    → All P xs
    → Permᴰ pods pods'
    → build_snapshot k parse_nquads
        (record { objects = xs; pods = pods; failed_kinds = failed })
        opts
      ≡ build_snapshot k parse_nquads
          (record { objects = ys; pods = pods'; failed_kinds = failed })
          opts
unfolding build_snapshot snapshot_of
build_snapshot-Perm k parse opts failed P unique xs ys pods pods' objects h order =
    let same = context-Perm P unique opts failed pods pods' objects h in
    let ctx = context (record { objects = ys; pods = pods'; failed_kinds = failed }) opts in
    let (placed, pulled) = pods-Perm ctx order in
    ap (λ c. of_parts k parse c failed opts (placement_of c pods) (pulled_of c pods)) same
    ∙ ap (λ p. of_parts k parse ctx failed opts p (pulled_of ctx pods)) placed
    ∙ ap (λ p. of_parts k parse ctx failed opts (placement_of ctx pods') p) pulled
