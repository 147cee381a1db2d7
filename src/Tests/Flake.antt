-- ===== src/Tests/Flake.antt =====
-- A lock file whose root has an input that follows one of another input, and one whose input
-- follows itself.
use nix2rdf.Base.{str_eq, ◌≡◌, refl, some, [], ◌∷◌, codes}
use nix2rdf.Extract.Flake.Follows.{out_of_fuel, input_of, resolve_follows}
use nix2rdf.Extract.Flake.Follows.Leads.{Leads, resolve_follows_diverges}
use nix2rdf.Hash.Json.{get, Json, Fields, Items}
use nix2rdf.Kubernetes.Objects

abbrev node : Fields → Json
node inputs = Json.object (Fields.field (codes "inputs") (Json.object inputs) Fields.end)

abbrev path : Json
path =
    Json.array
      (Items.cons (Json.string (codes "a")) (Items.cons (Json.string (codes "b")) Items.nil))

-- `a` leads to the node `x`, which has an input `b`.
abbrev nodes : Json
nodes = Json.object (
    Fields.field (codes "root")
      (node (Fields.field (codes "a") (Json.string (codes "x")) Fields.end))
      (Fields.field (codes "x")
        (node (Fields.field (codes "b") (Json.string (codes "y")) Fields.end)) Fields.end))

-- `a` follows `a/b`.
abbrev cyclic : Json
cyclic =
    Json.object
      (Fields.field (codes "root") (node (Fields.field (codes "a") path Fields.end)) Fields.end)

abbrev ids : Items
ids = Items.cons (Json.string (codes "a")) (Items.cons (Json.string (codes "b")) Items.nil)

cyclic-follows : input_of cyclic (codes "root") (codes "a") ≡ some (Json.array ids)
unfolding input_of Objects.field get str_eq
cyclic-follows = refl

ids-strings : Objects.strings (Objects.elements ids) ≡ codes "a" ∷ codes "b" ∷ []
unfolding Objects.strings Objects.elements Objects.as_str
ids-strings = refl

resolve_follows_diverges_example :
    resolve_follows 100 cyclic (codes "root") (codes "a" ∷ codes "b" ∷ []) ≡ out_of_fuel
resolve_follows_diverges_example =
    resolve_follows_diverges cyclic (codes "root") (codes "a") (codes "b") [] ids cyclic-follows
      ids-strings 100
