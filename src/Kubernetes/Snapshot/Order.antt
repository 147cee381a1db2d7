-- ===== src/Kubernetes/Snapshot/Order.antt =====
-- The maps that `build_snapshot` of k8s/snapshot.rs fills, with the objects in another order.
use mathlib.Core.Path.{subst}
use mathlib.Core.List.{Permᴰ}
use nix2rdf.Base.{
  ◌>>=◌, ◌+◌, ◌≡◌, refl, sym, ap, ◌∙◌, inl, inr, true, Option, List, [], ◌∷◌, Str, codes, arith,
  All, str_eq, eq_of_str_eq, unwrap_or, Bool-cases, if◌then◌else◌,
}
use nix2rdf.Base.Map
use nix2rdf.Base.Order.{str_ord}
use nix2rdf.Base.Set
use nix2rdf.Base.Set.{cmp_eq, eq_of_cmp_eq}
use nix2rdf.Base.Steps.{for_each, if_some, for_each-Perm}
use nix2rdf.Base.Update.{
  insert_set_comm, Commute, Commute-if_some, Commute-for_each, Commute-sym, insert_comm,
  update_comm,
}
use nix2rdf.Hash.Json.{Json}
use nix2rdf.Kubernetes.Objects.{s, namespace, annotations, labels, contains_str, kind, name}
use nix2rdf.Kubernetes.Snapshot.Containers.{Pulled}
use nix2rdf.Kubernetes.Snapshot.Context.{
  cluster_kinds, Key, key_ord, Index, NsMeta, Ctx, SnapshotOptions, key_of, add_index, add_ns_meta,
  context,
}
use nix2rdf.Kubernetes.Snapshot.Pods.{
  pulled_digest, text_at, count_node, place, place_pod, placement_of, pull, pull_pod, pull_status,
  pulled_of, pod_owner, statuses,
}

-- Of the objects with one key, one is as good as another.
abbrev pub IsUnique : (Json → Type 0) → Type 0
IsUnique P = (a b : Json) → P a → P b → key_of a ≡ key_of b → a ≡ b

add_index_comm :
    (P : Json → Type 0)
    → IsUnique P
    → (a b : Json) (m : Index) → P a
    → P b
    → add_index a (add_index b m) ≡ add_index b (add_index a m)
unfolding add_index
add_index_comm P unique a b m p q = elim (Bool-cases (cmp_eq (key_of a) (key_of b))) [
  | inl same ↦
      let is : a ≡ b = unique a b p q (eq_of_cmp_eq (key_of a) (key_of b) same) in
      subst (λ x. add_index a (add_index x m) ≡ add_index x (add_index a m)) is refl
  | inr other ↦ ground (arith, insert_comm (key_of a) (key_of b) a b m other)
]

key_of-namespace :
    (o : Json)
    → str_eq (kind o) (codes "Namespace") ≡ true
    → key_of o ≡ (codes "Namespace", ([], name o))
unfolding key_of contains_str str_eq
key_of-namespace o h =
    ap
      (λ x. (
        x,
        (
          if contains_str x cluster_kinds then [] else unwrap_or (codes "default") (namespace o),
          name o,
        ),
      ))
      (eq_of_str_eq (kind o) (codes "Namespace") h)

add_ns_meta_comm :
    (P : Json → Type 0)
    → IsUnique P
    → (a b : Json) (m : NsMeta) → P a
    → P b
    → add_ns_meta a (add_ns_meta b m) ≡ add_ns_meta b (add_ns_meta a m)
unfolding add_ns_meta
add_ns_meta_comm P unique a b m p q = elim (Bool-cases (str_eq (kind a) (codes "Namespace"))) [
  | inr other ↦ ground arith
  | inl a_is ↦ elim (Bool-cases (str_eq (kind b) (codes "Namespace"))) [
    | inr other ↦ ground arith
    | inl b_is ↦ elim (Bool-cases (cmp_eq (name a) (name b))) [
      | inl same ↦
          let keys : key_of a ≡ key_of b =
            key_of-namespace a a_is
            ∙ ap (λ x. (codes "Namespace", ([], x))) (eq_of_cmp_eq (name a) (name b) same)
            ∙ sym (key_of-namespace b b_is) in
          subst (λ x. add_ns_meta a (add_ns_meta x m) ≡ add_ns_meta x (add_ns_meta a m))
            (unique a b p q keys) refl
      | inr other ↦ ground (
        arith,
        insert_comm (name a) (name b) (labels a, annotations a) (labels b, annotations b) m other,
      )
    ]
  ]
]

-- The context of a snapshot is the same in whatever order the objects come.
pub context-Perm :
    (P : Json → Type 0)
    → IsUnique P
    → (opts : SnapshotOptions) (failed : List Str) (pods pods' : List Json) {xs ys : List Json}
    → Permᴰ xs ys
    → All P xs
    → context (record { objects = xs; pods = pods; failed_kinds = failed }) opts
      ≡ context (record { objects = ys; pods = pods'; failed_kinds = failed }) opts
unfolding context
context-Perm P unique opts failed pods pods' d h =
    let index = for_each-Perm P add_index (λ a b m. add_index_comm P unique a b m) d h [] in
    let ns_meta = for_each-Perm P add_ns_meta (λ a b m. add_ns_meta_comm P unique a b m) d h [] in
    λ i. record { cid = opts.cluster_id; cfg = opts.labels; index = index i; ns_meta = ns_meta i }

count_node_comm : (n n' : Str) → Commute (count_node n) (count_node n')
unfolding count_node
count_node_comm n n' m =
    update_comm n n' (λ x. unwrap_or 0 x + 1) (λ x. unwrap_or 0 x + 1) m (λ x. refl)

place_comm : (k k' : Key) (n n' : Str) → Commute (place k n) (place k' n')
unfolding place
place_comm k k' n n' m =
    update_comm k k' (λ x. count_node n (unwrap_or [] x)) (λ x. count_node n' (unwrap_or [] x)) m
      (λ x. count_node_comm n n' (unwrap_or [] x))

of_container : Str → Str → Pulled → Pulled
of_container c h pulled = Map.insert c (Set.insert h (unwrap_or [] (Map.get c pulled))) pulled

pull_comm : (k k' : Key) (c c' h h' : Str) → Commute (pull k c h) (pull k' c' h')
unfolding pull of_container
pull_comm k k' c c' h h' m =
    update_comm k k' (λ x. of_container c h (unwrap_or [] x))
      (λ x. of_container c' h' (unwrap_or [] x)) m
      (λ x.
        update_comm c c' (λ y. Set.insert h (unwrap_or [] y)) (λ y. Set.insert h' (unwrap_or [] y))
          (unwrap_or [] x) (λ y. insert_set_comm h h' (unwrap_or [] y)))

abbrev node_of : Json → Option Str
node_of pod = s pod (codes "spec" ∷ codes "nodeName" ∷ [])

abbrev digest_of : Json → Option Str
digest_of cs = s cs (codes "imageID" ∷ []) >>= pulled_digest

pull_status_comm : (k k' : Key) (cs cs' : Json) → Commute (pull_status k cs) (pull_status k' cs')
unfolding pull_status
pull_status_comm k k' cs cs' =
    let name_of : Json → Str = λ c. text_at c (codes "name") in
    Commute-if_some (λ h. pull k (name_of cs) h) (pull_status k' cs')
      (λ h. Commute-sym (pull_status k' cs') (pull k (name_of cs) h) (
        Commute-if_some (λ h'. pull k' (name_of cs') h') (pull k (name_of cs) h)
          (λ h'. pull_comm k' k (name_of cs') (name_of cs) h' h) (digest_of cs')))
      (digest_of cs)

abbrev IsAny : Json → Type 0
IsAny _ = Unit

All-IsAny : (xs : List Json) → All IsAny xs
All-IsAny [] = tt
All-IsAny (x ∷ xs) = (tt, All-IsAny xs)

place_pod_comm : (ctx : Ctx) (a b : Json) → Commute (place_pod ctx a) (place_pod ctx b)
unfolding place_pod
place_pod_comm ctx a b =
    Commute-if_some (λ owner. if_some (place owner) (node_of a)) (place_pod ctx b)
      (λ owner.
        Commute-if_some (place owner) (place_pod ctx b)
          (λ n. Commute-sym (place_pod ctx b) (place owner n) (
            Commute-if_some (λ owner'. if_some (place owner') (node_of b)) (place owner n)
              (λ owner'.
                Commute-if_some (place owner') (place owner n) (λ n'. place_comm owner' owner n' n)
                  (node_of b))
              (pod_owner ctx b)))
          (node_of a))
      (pod_owner ctx a)

pull_pod_comm : (ctx : Ctx) (a b : Json) → Commute (pull_pod ctx a) (pull_pod ctx b)
unfolding pull_pod
pull_pod_comm ctx a b =
    Commute-if_some (λ owner. for_each (pull_status owner) (statuses a)) (pull_pod ctx b)
      (λ owner.
        Commute-for_each (pull_status owner) (pull_pod ctx b)
          (λ cs. Commute-sym (pull_pod ctx b) (pull_status owner cs) (
            Commute-if_some (λ owner'. for_each (pull_status owner') (statuses b))
              (pull_status owner cs)
              (λ owner'.
                Commute-for_each (pull_status owner') (pull_status owner cs)
                  (λ cs'. pull_status_comm owner' owner cs' cs) (statuses b))
              (pod_owner ctx b)))
          (statuses a))
      (pod_owner ctx a)

-- What is read off the pods is the same in whatever order they come.
pub pods-Perm :
    (ctx : Ctx) {xs ys : List Json}
    → Permᴰ xs ys
    → (placement_of ctx xs ≡ placement_of ctx ys) × (pulled_of ctx xs ≡ pulled_of ctx ys)
unfolding placement_of pulled_of
pods-Perm ctx {xs} d =
    let any = All-IsAny xs in
    (
      for_each-Perm IsAny (place_pod ctx) (λ a b f p q. place_pod_comm ctx a b f) d any [],
      for_each-Perm IsAny (pull_pod ctx) (λ a b f p q. pull_pod_comm ctx a b f) d any [],
    )
