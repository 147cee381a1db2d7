-- ===== src/Kubernetes/Snapshot/Growth/Policies.antt =====
-- The steps of `build_snapshot` in k8s/snapshot.rs for services, storage and network policies.
use nix2rdf.Base.{Bool, List, [], ◌∷◌, Str, Option, none, some}
use nix2rdf.Crates.{Crates}
use nix2rdf.Fragment.Grows.{Grows}
use nix2rdf.Fragment.Lines.{Fragment}
use nix2rdf.Hash.Json.{Json}
use nix2rdf.Kubernetes.Objects.{Labels}
use nix2rdf.Kubernetes.Snapshot.Context.{Ctx}
use nix2rdf.Kubernetes.Snapshot.Growth.{steps}
use nix2rdf.Kubernetes.Snapshot.Policies.{
  add_selected, add_service, add_ingress, add_bound, add_budget, add_storage_class, add_claim,
  add_hosts, add_volume_object, add_peer_in, add_peer, add_peers, add_rules, add_policy,
}
use Prim.Native.String.{String}

module _ (k : Crates) (ctx : Ctx) where
  pub add_selected-Grows :
      (f x : Fragment) (oi prop : Str) (ns : Option Str) (test : Labels → Bool) (ws : List Json)
      → Grows f x
      → Grows f (add_selected k ctx oi prop ns test ws x)
  unfolding add_selected
  add_selected-Grows f x oi prop ns test ws g = search (steps) depth 20

  pub add_service-Grows :
      (f x : Fragment) (oi ns : Str) (o : Json) → Grows f x → Grows f (add_service k ctx oi ns o x)
  unfolding add_service
  add_service-Grows f x oi ns o g = search (steps, add_selected-Grows) depth 20

  pub add_ingress-Grows :
      (f x : Fragment) (oi ns : Str) (o : Json) → Grows f x → Grows f (add_ingress k ctx oi ns o x)
  unfolding add_ingress
  add_ingress-Grows f x oi ns o g = search (steps) depth 20

  pub add_bound-Grows :
      (f x : Fragment) (oi : Str) (key : String) (o : Json)
      → Grows f x
      → Grows f (add_bound k ctx oi key o x)
  unfolding add_bound
  add_bound-Grows f x oi key o g = search (steps) depth 20

  pub add_budget-Grows :
      (f x : Fragment) (oi : Str) (o : Json) → Grows f x → Grows f (add_budget k ctx oi o x)
  unfolding add_budget
  add_budget-Grows f x oi o g = search (steps, add_bound-Grows) depth 20

  pub add_storage_class-Grows :
      (f x : Fragment) (oi : Str) (o : Json) → Grows f x → Grows f (add_storage_class k ctx oi o x)
  unfolding add_storage_class
  add_storage_class-Grows f x oi o g = search (steps) depth 20

  pub add_claim-Grows :
      (f x : Fragment) (oi : Str) (o : Json) → Grows f x → Grows f (add_claim k ctx oi o x)
  unfolding add_claim
  add_claim-Grows f x oi o g = search (steps, add_storage_class-Grows) depth 20

  pub add_hosts-Grows :
      (f x : Fragment) (oi : Str) (e : Json) → Grows f x → Grows f (add_hosts k ctx oi e x)
  unfolding add_hosts
  add_hosts-Grows f x oi e g = search (steps) depth 20

  pub add_volume_object-Grows :
      (f x : Fragment) (oi : Str) (o : Json) → Grows f x → Grows f (add_volume_object k ctx oi o x)
  unfolding add_volume_object
  add_volume_object-Grows f x oi o g =
      search (steps, add_storage_class-Grows, add_hosts-Grows) depth 20

  pub add_peer_in-Grows :
      (f x : Fragment) (oi prop : Str) (ps : Option Json) (pns : Str)
      → Grows f x
      → Grows f (add_peer_in k ctx oi prop ps pns x)
  unfolding add_peer_in
  add_peer_in-Grows f x oi prop none pns g = search steps
  add_peer_in-Grows f x oi prop (some ps) pns g = search (add_selected-Grows)

  pub add_peer-Grows :
      (f x : Fragment) (oi ns prop : Str) (peer : Json)
      → Grows f x
      → Grows f (add_peer k ctx oi ns prop peer x)
  unfolding add_peer
  add_peer-Grows f x oi ns prop peer g = search (steps, add_peer_in-Grows) depth 20

  pub add_peers-Grows :
      (f x : Fragment) (oi ns prop all_prop : Str) (ps : List Json)
      → Grows f x
      → Grows f (add_peers k ctx oi ns prop all_prop ps x)
  unfolding add_peers
  add_peers-Grows f x oi ns prop all_prop [] g = search steps
  add_peers-Grows f x oi ns prop all_prop (p ∷ ps) g = search (steps, add_peer-Grows)

  pub add_rules-Grows :
      (f x : Fragment) (oi ns prop all_prop : Str) (rules : List Json)
      → Grows f x
      → Grows f (add_rules k ctx oi ns prop all_prop rules x)
  unfolding add_rules
  add_rules-Grows f x oi ns prop all_prop rules g = search (steps, add_peers-Grows) depth 20

  pub add_policy-Grows :
      (f x : Fragment) (oi ns : Str) (o : Json) → Grows f x → Grows f (add_policy k ctx oi ns o x)
  unfolding add_policy
  add_policy-Grows f x oi ns o g = search (steps, add_selected-Grows, add_rules-Grows) depth 20
