-- ===== src/Reason/Inputs.antt =====
-- `read_input`, `objects_of` and `input_hash`: the inputs of a rule run.
use nix2rdf.Base.{
  ℕ, Bool, false, ◌||◌, Option, none, some, List, [], ◌∷◌, Str, ◌==◌, if◌then◌else◌, str_eq,
  split_once, ◌>>=◌,
}
use nix2rdf.Base.Map
use nix2rdf.Base.Order.{str_ord, pair_ord, list_ord}
use nix2rdf.Base.Paths.{FilePath}
use nix2rdf.Base.Set
use nix2rdf.Base.Sort
use nix2rdf.Base.Split.{lines, pieces, trim_matches}
use nix2rdf.Base.Utf8.{is_utf8}
use nix2rdf.Hash.Items.{sha256_hex, sha256_hex_items}
use nix2rdf.Store.Files.{Files, Result, Error}

pub record InputGraph : Type 0 where
  pub graph : Str
  pub path : FilePath
  pub nquads : Str

unfoldable pub is_angle : ℕ → Bool
is_angle b = b == b'<' || b == b'>'

unfoldable pub second_last : List Str → Option Str
second_last [] = none
second_last (a ∷ []) = none
second_last (a ∷ b ∷ []) = some a
second_last (a ∷ b ∷ c ∷ l) = second_last (b ∷ c ∷ l)

unfoldable pub first : List Str → Option Str
first [] = none
first (l ∷ ls) = some l

-- The last token before the final dot of the first line, without its brackets.
unfoldable pub graph_token : Str → Option Str
graph_token nquads = do
  l ← first (lines nquads)
  g ← second_last (pieces b' ' l)
  some (trim_matches is_angle g)

-- `NamedNode::new` refuses some texts.
unfoldable pub input_graph : (Str → Bool) → FilePath → Str → Result InputGraph
input_graph is_iri path nquads = elim (graph_token nquads) [
  | none ↦ Result.err Error.other
  | some g ↦
      if is_iri g
      then Result.ok (record { graph = g; path = path; nquads = nquads })
      else Result.err Error.rdf
]

unfoldable pub read_input : (Str → Option Str) → (Str → Bool) → FilePath → Files → Result InputGraph
read_input decompress is_iri path fs = elim (Map.get path fs) [
  | none ↦ Result.err Error.io
  | some bytes ↦ elim (decompress bytes) [
    | none ↦ Result.err Error.other
    | some raw ↦ if is_utf8 raw then input_graph is_iri path raw else Result.err Error.rdf
  ]
]

-- The second and the third of at most four pieces of a line.
unfoldable pub predicate_object : Str → Option (Str × Str)
predicate_object line = do
  (s, rest) ← split_once b' ' line
  (p, more) ← split_once b' ' rest
  elim (split_once b' ' more) [ none ↦ some (p, more) | some (o, tail) ↦ some (p, o) ]

unfoldable pub is_bracketed : Str → Bool
is_bracketed [] = false
is_bracketed (b ∷ s) = b == b'<'

-- The object of a line, if it is an IRI and the predicate is the one that is asked for.
unfoldable pub object_of : Str → Str → Option Str
object_of predicate line = elim (predicate_object line) [
  | none ↦ none
  | some (p, o) ↦
      if str_eq p predicate
      then (if is_bracketed o then some (trim_matches is_angle o) else none)
      else none
]

unfoldable pub collect_objects : Str → List Str → List Str → List Str
collect_objects predicate [] out = out
collect_objects predicate (l ∷ ls) out = elim (object_of predicate l) [
  | none ↦ collect_objects predicate ls out
  | some o ↦ collect_objects predicate ls (Set.insert o out)
]

-- The predicate stands as it is displayed, in brackets.
unfoldable pub objects_of : Str → Str → List Str
objects_of nquads predicate = collect_objects predicate (lines nquads) []

module _ (digest : Str → Str) where
  unfoldable pub hash_items : List InputGraph → List (Str × Str)
  hash_items [] = []
  hash_items (i ∷ is) = (i.graph, sha256_hex digest i.nquads) ∷ hash_items is

  unfoldable pub flatten : List (Str × Str) → List Str
  flatten [] = []
  flatten ((g, h) ∷ items) = g ∷ h ∷ flatten items

  unfoldable pub input_hash : List InputGraph → Str
  input_hash inputs = sha256_hex_items digest (flatten (Sort.sort (hash_items inputs)))
