-- ===== src/Kubernetes/Snapshot/Growth/Access.antt =====
-- The steps of `build_snapshot` in k8s/snapshot.rs for roles and their bindings.
use nix2rdf.Base.{Str}
use nix2rdf.Crates.{Crates}
use nix2rdf.Fragment.Grows.{Grows}
use nix2rdf.Fragment.Lines.{Fragment}
use nix2rdf.Hash.Json.{Json}
use nix2rdf.Kubernetes.Snapshot.Context.{Ctx}
use nix2rdf.Kubernetes.Snapshot.Growth.{steps, if_else-Grows}
use nix2rdf.Kubernetes.Snapshot.Access.{
  add_permission, add_rule, add_aggregated, add_role_object, add_named, add_subject, add_binding,
}
use Prim.Native.String.{String}

module _ (k : Crates) (ctx : Ctx) where
  pub add_permission-Grows :
      (f x : Fragment) (oi g r v : Str) → Grows f x → Grows f (add_permission k ctx oi g r v x)
  unfolding add_permission
  add_permission-Grows f x oi g r v h = search (steps) depth 20

  pub add_rule-Grows :
      (f x : Fragment) (oi : Str) (rule : Json) → Grows f x → Grows f (add_rule k ctx oi rule x)
  unfolding add_rule
  add_rule-Grows f x oi rule g = search (steps, add_permission-Grows) depth 20

  pub add_aggregated-Grows :
      (f x : Fragment) (oi nm : Str) (sel : Json)
      → Grows f x
      → Grows f (add_aggregated k ctx oi nm sel x)
  unfolding add_aggregated
  add_aggregated-Grows f x oi nm sel g = search (steps) depth 20

  pub add_role_object-Grows :
      (f x : Fragment) (kd oi nm : Str) (o : Json)
      → Grows f x
      → Grows f (add_role_object k ctx kd oi nm o x)
  unfolding add_role_object
  add_role_object-Grows f x kd oi nm o g =
      search (steps, add_rule-Grows, add_aggregated-Grows) depth 20

  pub add_named-Grows :
      (f x : Fragment) (oi sn : Str) (class : String) (subj : Str)
      → Grows f x
      → Grows f (add_named k ctx oi sn class subj x)
  unfolding add_named
  add_named-Grows f x oi sn class subj g = search (steps) depth 20

  pub add_subject-Grows :
      (f x : Fragment) (oi ns : Str) (sub : Json)
      → Grows f x
      → Grows f (add_subject k ctx oi ns sub x)
  unfolding add_subject
  add_subject-Grows f x oi ns sub g = search (steps, if_else-Grows, add_named-Grows) depth 8

  pub add_binding-Grows :
      (f x : Fragment) (kd oi ns : Str) (o : Json)
      → Grows f x
      → Grows f (add_binding k ctx kd oi ns o x)
  unfolding add_binding
  add_binding-Grows f x kd oi ns o g = search (steps, add_subject-Grows) depth 20
