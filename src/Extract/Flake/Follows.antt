-- ===== src/Extract/Flake/Follows.antt =====
-- `resolve_follows` of flake.rs: the input that a path of names leads to. A path may go through an
-- input that follows a path itself, so the function calls itself on what the lock file says.
pub mod Leads
use nix2rdf.Base.{ℕ, zero, suc, Option, none, some, List, [], ◌∷◌, Str, codes, ◌>>=◌}
use nix2rdf.Hash.Json.{Json}
use nix2rdf.Kubernetes.Objects.{field, as_str, elements, strings}

-- `out_of_fuel` has no counterpart in the program.
pub data Follow : Type 0 where
  resolved : Str → Str → Follow
  unresolved out_of_fuel : Follow

-- The input `name` of the node `id`.
unfoldable pub input_of : Json → Str → Str → Option Json
input_of nodes id name =
    field id nodes >>= λ node. field (codes "inputs") node >>= λ inputs. field name inputs

-- The node that an input leads to, without following a path again.
unfoldable pub direct : Json → Str → Str → Option Str
direct nodes parent n = input_of nodes parent n >>= as_str

unfoldable pub go_on : Json → (Str → Follow) → Follow → Follow
go_on nodes next (resolved parent n) = elim (direct nodes parent n) [
  | none ↦ unresolved
  | some id ↦ next id
]
go_on nodes next unresolved = unresolved
go_on nodes next out_of_fuel = out_of_fuel

-- The loop over the names but the last; `resolve` is the function itself.
unfoldable pub follow_names : (List Str → Follow) → Json → Str → List Str → Follow
follow_names resolve nodes cur [] = unresolved
follow_names resolve nodes cur (name ∷ []) = resolved cur name
follow_names resolve nodes cur (name ∷ next ∷ path) =
    let rest : Str → Follow = λ id. follow_names resolve nodes id (next ∷ path) in
    elim (input_of nodes cur name) [
      | none ↦ unresolved
      | some target ↦ elim target [
        | Json.string id ↦ rest id
        | Json.array p ↦ go_on nodes rest (resolve (strings (elements p)))
        | _ ↦ unresolved
      ]
    ]

unfoldable pub resolve_follows : ℕ → Json → Str → List Str → Follow
resolve_follows zero nodes root path = out_of_fuel
resolve_follows (suc fuel) nodes root path =
    follow_names (resolve_follows fuel nodes root) nodes root path
