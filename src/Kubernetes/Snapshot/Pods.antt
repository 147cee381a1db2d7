-- ===== src/Kubernetes/Snapshot/Pods.antt =====
-- `pod_owner` of snapshot.rs, and what `build_snapshot` reads off the pods: where the replicas of a
-- workload run and which images were pulled for it.
use nix2rdf.Base.{
  ℕ, zero, suc, ◌+◌, Option, none, some, List, [], ◌∷◌, ◌++◌, Str, codes, str_eq, if◌then◌else◌,
  unwrap_or, ◌>>=◌, rsplit_once, strip_prefix,
}
use nix2rdf.Base.Map
use nix2rdf.Base.Order.{str_ord}
use nix2rdf.Base.Set
use nix2rdf.Base.Steps.{for_each, if_some}
use nix2rdf.Hash.Json.{Json}
use nix2rdf.Kubernetes.Images.{digest_hex}
use nix2rdf.Kubernetes.Objects.{s, arr, namespace}
use nix2rdf.Kubernetes.Snapshot.Containers.{Pulled}
use nix2rdf.Kubernetes.Snapshot.Context.{Key, key_ord, Ctx, get, is_workload}

unfoldable pub first : List Json → Option Json
first [] = none
first (v ∷ vs) = some v

unfoldable pub text_at : Json → Str → Str
text_at o key = unwrap_or [] (s o (key ∷ []))

unfoldable pub first_owner : Json → Option Json
first_owner o = first (arr o (codes "metadata" ∷ codes "ownerReferences" ∷ []))

-- The CronJob that owns a job.
unfoldable pub cron_job : Json → Option Str
cron_job o =
    if str_eq (unwrap_or [] (s o (codes "kind" ∷ []))) (codes "CronJob")
    then some (text_at o (codes "name"))
    else none

module _ (ctx : Ctx) where
  -- A job is attributed to the CronJob that owns it.
  unfoldable pub attribute : Str → Str → Str → Key
  attribute ns kd nm =
      if str_eq kd (codes "Job")
      then elim (get ctx (codes "Job") ns nm >>= λ j. first_owner j >>= cron_job) [
        | some cron ↦ (codes "CronJob", (ns, cron))
        | none ↦ (kd, (ns, nm))
      ]
      else (kd, (ns, nm))

  -- The loop, which goes round at most `n` times.
  unfoldable pub climb : ℕ → Str → Str → Str → Option Key
  climb zero ns kd nm = none
  climb (suc n) ns kd nm =
      let up : Option Key = get ctx (codes "ReplicaSet") ns nm >>= λ rs.
      first_owner rs >>= λ o. climb n ns (text_at o (codes "kind")) (text_at o (codes "name")) in
      if is_workload kd
      then some (attribute ns kd nm)
      else if str_eq kd (codes "ReplicaSet")
      then up
      else none

  unfoldable pub pod_owner : Json → Option Key
  pod_owner pod = do
    o ← first_owner pod
    climb 3 (unwrap_or (codes "default") (namespace pod)) (text_at o (codes "kind"))
        (text_at o (codes "name"))

-- The number of replicas by node.
abbrev pub Placed : Type 0
Placed = List (Str × ℕ)

abbrev pub Placement : Type 0
Placement = List (Key × Placed)

abbrev pub AllPulled : Type 0
AllPulled = List (Key × Pulled)

-- `*entry(node).or_default() += 1`
unfoldable pub count_node : Str → Placed → Placed
count_node node placed = Map.insert node (unwrap_or 0 (Map.get node placed) + 1) placed

unfoldable pub place : Key → Str → Placement → Placement
place owner node placement =
    Map.insert owner (count_node node (unwrap_or [] (Map.get owner placement))) placement

-- What stands behind the last `@`, or the whole text.
unfoldable pub behind_at : Str → Str
behind_at id = elim (rsplit_once b'@' id) [ none ↦ id | some (a, d) ↦ d ]

-- The digest that an `imageID` names.
unfoldable pub pulled_digest : Str → Option Str
pulled_digest id =
    let d = behind_at id in
    digest_hex (behind_at (unwrap_or d (strip_prefix (codes "docker-pullable://") d)))

unfoldable pub pull : Key → Str → Str → AllPulled → AllPulled
pull owner cname h pulled =
    let of_owner = unwrap_or [] (Map.get owner pulled) in
    let of_container = unwrap_or [] (Map.get cname of_owner) in
    Map.insert owner (Map.insert cname (Set.insert h of_container) of_owner) pulled

unfoldable pub pull_status : Key → Json → AllPulled → AllPulled
pull_status owner cs =
    if_some (λ h. pull owner (text_at cs (codes "name")) h)
      (s cs (codes "imageID" ∷ []) >>= pulled_digest)

unfoldable pub statuses : Json → List Json
statuses pod =
    arr pod (codes "status" ∷ codes "containerStatuses" ∷ [])
    ++ arr pod (codes "status" ∷ codes "initContainerStatuses" ∷ [])

unfoldable pub place_pod : Ctx → Json → Placement → Placement
place_pod ctx pod =
    if_some (λ owner. if_some (place owner) (s pod (codes "spec" ∷ codes "nodeName" ∷ [])))
      (pod_owner ctx pod)

unfoldable pub pull_pod : Ctx → Json → AllPulled → AllPulled
pull_pod ctx pod =
    if_some (λ owner. for_each (pull_status owner) (statuses pod)) (pod_owner ctx pod)

-- The loop over the pods; it fills both maps.
unfoldable pub placement_of : Ctx → List Json → Placement
placement_of ctx pods = for_each (place_pod ctx) pods []

unfoldable pub pulled_of : Ctx → List Json → AllPulled
pulled_of ctx pods = for_each (pull_pod ctx) pods []
