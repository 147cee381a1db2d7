-- ===== src/Extract/Flake/Lock.antt =====
-- `lock_graph` of flake.rs: the pins and the inputs of a lock file.
use nix2rdf.Base.{
  ℕ, Bool, false, not, Option, none, some, List, [], ◌∷◌, ◌++◌, Str, codes, str_eq, if◌then◌else◌,
  unwrap_or, ◌>>=◌ as ◌>>=?◌,
}
use nix2rdf.Base.Map
use nix2rdf.Base.Order.{str_ord}
use nix2rdf.Base.Result.{Result, ok, err, ◌>>=◌, ok_or}
use nix2rdf.Base.Steps.{for_each, if_some, if_true, ◌▷◌}
use nix2rdf.Crates.{Crates}
use nix2rdf.Extract.Flake.Follows.{Follow, resolved, unresolved, out_of_fuel, resolve_follows}
use nix2rdf.Extract.Flake.Reference.{str_of, flake_ref_string, add_pin}
use nix2rdf.Extract.Runtime.{Fault, failed}
use nix2rdf.Extract.Runtime
use nix2rdf.Fragment.Build.{add_node, add_type, add_str, add_bool}
use nix2rdf.Fragment.Kind.{FragmentKind}
use nix2rdf.Fragment.Lines.{Fragment, new}
use nix2rdf.Hash.Json.{Json, Fields}
use nix2rdf.Iri.Instances.{pin, flake_input}
use nix2rdf.Kubernetes.Objects.{field, elements, strings}
use nix2rdf.Nix.Source.{no_field}
use nix2rdf.Vocab.{nix}

unfoldable pub entries : Fields → List (Str × Json)
entries Fields.end = []
entries (Fields.field key v fs) = (key, v) ∷ entries fs

-- The entries of an object; none of anything else.
unfoldable pub object_entries : Option Json → List (Str × Json)
object_entries none = []
object_entries (some v) = elim v [ Json.object fs ↦ entries fs | _ ↦ [] ]

-- The pins by the identifiers of their nodes.
abbrev pub Pins : Type 0
Pins = List (Str × Str)

unfoldable pub is_false : Json → Bool
is_false (Json.boolean b) = not b
is_false _ = false

-- The fragment of the root and the fragments of the other pins.
abbrev pub Locked : Type 0
Locked = Fragment × List Fragment

module _ (k : Crates) (root_nar : Str) (root_id : Str) (nodes : Json) where
  -- The root's pin is the flake's own; a locked node's pin is named by its NAR hash.
  unfoldable pub pin_node : Str × Json → Pins → Pins
  pin_node (id, node) pins =
      if str_eq id root_id
      then Map.insert id (pin k.base64 root_nar) pins
      else if_some (λ nar. Map.insert id (pin k.base64 nar))
          (field (codes "locked") node >>=? λ l. str_of l (codes "narHash")) pins

  unfoldable pub pin_of : Pins
  pin_of = for_each pin_node (object_entries (some nodes)) []

  unfoldable pub describe_pin : Str → Json → Locked → Locked
  describe_pin parent_pin locked (root_frag, extra) =
      let nar = unwrap_or [] (str_of locked (codes "narHash")) in
      (
        add_pin k parent_pin locked root_frag,
        extra ++ add_pin k parent_pin locked (new (FragmentKind.pin nar)) ∷ [],
      )

  -- What is recorded of the node that an input is locked to.
  unfoldable pub add_target : Str → Json → Fragment → Fragment
  add_target input tn f =
      f
      ▷ if_some
          (λ orig. add_str k.quote input (nix (codes "originalRef")) (flake_ref_string k orig))
          (field (codes "original") tn)
      ▷ if_some (λ b. if_true (is_false b) (add_bool k.quote input (nix (codes "isFlake")) false))
          (field (codes "flake") tn)

  unfoldable pub add_pinned : Str → Str → Fragment → Fragment
  add_pinned input target_id f =
      f
      ▷ add_str k.quote input (nix (codes "lockNodeId")) target_id
      ▷ if_some (add_node input (nix (codes "pinnedTo"))) (Map.get target_id pin_of)
      ▷ if_some (add_target input) (field target_id nodes)

  unfoldable pub add_follows : Str → Follow → Fragment → Result Fault Fragment
  add_follows input (resolved parent n) f =
      ok (add_node input (nix (codes "follows")) (flake_input k.base64 root_nar parent n) f)
  add_follows input unresolved f = ok f
  add_follows input out_of_fuel f = err Runtime.out_of_fuel

  unfoldable pub add_input_target : ℕ → Str → Json → Fragment → Result Fault Fragment
  add_input_target fuel input target f = elim target [
    | Json.string target_id ↦ ok (add_pinned input target_id f)
    | Json.array p ↦ add_follows input (resolve_follows fuel nodes root_id (strings (elements p))) f
    | _ ↦ ok f
  ]

  unfoldable pub add_inputs : ℕ → Str → Str → List (Str × Json) → Fragment → Result Fault Fragment
  add_inputs fuel id parent_pin [] f = ok f
  add_inputs fuel id parent_pin ((name, target) ∷ inputs) f =
      let input = flake_input k.base64 root_nar id name in
      let g =
        f
        ▷ add_type input (nix (codes "FlakeInput"))
        ▷ add_str k.quote input (nix (codes "name")) name
        ▷ add_node parent_pin (nix (codes "locksInput")) input in
      add_input_target fuel input target g >>= add_inputs fuel id parent_pin inputs

  -- A node that has no pin is left out.
  unfoldable pub lock_node : ℕ → Str × Json → Locked → Result Fault Locked
  lock_node fuel (id, node) st =
      let described : Str → Locked = λ parent_pin.
        if_true (not (str_eq id root_id))
          (if_some (describe_pin parent_pin) (field (codes "locked") node)) st in
      let locked : Str → Result Fault Locked = λ parent_pin.
        add_inputs fuel id parent_pin (object_entries (field (codes "inputs") node))
          (described parent_pin).0
        >>= λ f. ok (f, (described parent_pin).1) in
      elim (Map.get id pin_of) [ none ↦ ok st | some parent_pin ↦ locked parent_pin ]

  unfoldable pub lock_nodes : ℕ → List (Str × Json) → Locked → Result Fault Locked
  lock_nodes fuel [] st = ok st
  lock_nodes fuel (n ∷ ns) st = lock_node fuel n st >>= lock_nodes fuel ns

unfoldable pub lock_graph : Crates → ℕ → Json → Str → Fragment → Result Fault Locked
lock_graph k fuel meta root_nar root_frag = do
  locks ← ok_or (failed (no_field (codes "locks"))) (field (codes "locks") meta)
  nodes ← ok_or (failed (no_field (codes "nodes"))) (field (codes "nodes") locks)
  let root_id = unwrap_or (codes "root") (str_of locks (codes "root")) in
      lock_nodes k root_nar root_id nodes fuel (object_entries (some nodes)) (root_frag, [])
