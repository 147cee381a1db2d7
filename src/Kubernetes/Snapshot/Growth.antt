-- ===== src/Kubernetes/Snapshot/Growth.antt =====
-- The steps of `container_specs` in k8s/snapshot.rs, as steps of a fragment that grows.
pub mod Policies
pub mod Access
pub mod Objects
use nix2rdf.Base.{Bool, true, false, if◌then◌else◌, List, [], ◌∷◌, Str}
use nix2rdf.Crates.{Crates}
use nix2rdf.Fragment.Grows.{Grows, growth, if_some-Grows, for_each-Grows, if_true-Grows}
use nix2rdf.Fragment.Lines.{Fragment}
use nix2rdf.Hash.Json.{Json}
use nix2rdf.Kubernetes.Objects.{Labels}
use nix2rdf.Kubernetes.Snapshot.Containers.{
  Pulled, add_mount, add_env, add_env_from, add_source, add_volume, add_template, add_images,
  add_resource, add_container, add_pod_spec, container_specs,
}
use nix2rdf.Kubernetes.Snapshot.Context.{Ctx, add_labels}

pub ruleset steps = (growth, if_some-Grows, for_each-Grows, if_true-Grows)

pub if_else-Grows :
    (b : Bool) (u v : Fragment → Fragment) (f x : Fragment)
    → Grows f (u x)
    → Grows f (v x)
    → Grows f ((if b then u else v) x)
if_else-Grows true u v f x g h = g
if_else-Grows false u v f x g h = h

pub add_labels-Grows :
    (k : Crates) (f x : Fragment) (subj : Str) (l : Labels)
    → Grows f x
    → Grows f (add_labels k subj l x)
unfolding add_labels
add_labels-Grows k f x subj l g = search steps

module _ (k : Crates) (ctx : Ctx) where
  pub add_mount-Grows :
      (f x : Fragment) (wi ns kd : Str) (path : List Str) (v : Json)
      → Grows f x
      → Grows f (add_mount k ctx wi ns kd path v x)
  unfolding add_mount
  add_mount-Grows f x wi ns kd path v g = search (steps) depth 20

  pub add_env-Grows :
      (f x : Fragment) (wi ns : Str) (e : Json) → Grows f x → Grows f (add_env k ctx wi ns e x)
  unfolding add_env
  add_env-Grows f x wi ns e g = search (steps, add_mount-Grows) depth 20

  pub add_env_from-Grows :
      (f x : Fragment) (wi ns : Str) (e : Json) → Grows f x → Grows f (add_env_from k ctx wi ns e x)
  unfolding add_env_from
  add_env_from-Grows f x wi ns e g = search (steps, add_mount-Grows) depth 20

  pub add_source-Grows :
      (f x : Fragment) (wi ns : Str) (e : Json) → Grows f x → Grows f (add_source k ctx wi ns e x)
  unfolding add_source
  add_source-Grows f x wi ns e g = search (steps, add_mount-Grows) depth 20

  pub add_volume-Grows :
      (f x : Fragment) (wi ns : Str) (v : Json) → Grows f x → Grows f (add_volume k ctx wi ns v x)
  unfolding add_volume
  add_volume-Grows f x wi ns v g = search (steps, add_mount-Grows, add_source-Grows) depth 20

  pub add_template-Grows :
      (f x : Fragment) (wi : Str) (t : Json) → Grows f x → Grows f (add_template k ctx wi t x)
  unfolding add_template
  add_template-Grows f x wi t g = search (steps) depth 20

  pub add_images-Grows :
      (f x : Fragment) (ci reference : Str) (digests : List Str)
      → Grows f x
      → Grows f (add_images k ctx ci reference digests x)
  unfolding add_images
  add_images-Grows f x ci reference [] g = search steps
  add_images-Grows f x ci reference (d ∷ ds) g = search steps

  pub add_resource-Grows :
      (f x : Fragment) (ci : Str) (c : Json) (r : Str × Str × Str)
      → Grows f x
      → Grows f (add_resource k ctx ci c r x)
  unfolding add_resource
  add_resource-Grows f x ci c (prop, from, of) g = search steps

  pub add_container-Grows :
      (f x : Fragment) (w : Json) (wi ns : Str) (pulled : Pulled) (init : Bool) (c : Json)
      → Grows f x
      → Grows f (add_container k ctx w wi ns pulled init c x)
  unfolding add_container
  add_container-Grows f x w wi ns pulled init c g =
      search (steps, add_images-Grows, add_resource-Grows, add_env-Grows, add_env_from-Grows) depth
        20

  pub add_pod_spec-Grows :
      (f x : Fragment) (w : Json) (wi : Str) (pulled : Pulled) (ps : Json)
      → Grows f x
      → Grows f (add_pod_spec k ctx w wi pulled ps x)
  unfolding add_pod_spec
  add_pod_spec-Grows f x w wi pulled ps g =
      search (steps, add_container-Grows, add_volume-Grows, add_template-Grows) depth 20

  pub container_specs-Grows :
      (f x : Fragment) (w : Json) (wi : Str) (pulled : Pulled)
      → Grows f x
      → Grows f (container_specs k ctx w wi pulled x)
  unfolding container_specs
  container_specs-Grows f x w wi pulled g = search (steps, add_pod_spec-Grows) depth 20
