-- ===== src/Tests/Fragment.antt =====
-- Fragments as sets of lines, with a parser of one kind of line.
use nix2rdf.Base.{
  ◌≡◌, ◌≢◌, ◌⊎◌, refl, ap, Option, none, some, List, [], ◌∷◌, arith, Str, codes, All, ◌==◌,
  if◌then◌else◌,
}
use nix2rdf.Base.Order.{str_ord}
use nix2rdf.Base.Set
use nix2rdf.Fragment.Kind.{FragmentKind, graph}
use nix2rdf.Fragment.Lines.{
  Quad, Fragment, from_quads, quad_lines, nquads_lines, show_iri, to_nquads, to_quads, triple,
}
use nix2rdf.Fragment.Nquads.{
  content_hash-eq, to_quads-from_quads, IsNquadsParser, relabel, in_graph,
}
use nix2rdf.Iri.Instances
use nix2rdf.Reason.Inputs.{graph_token, is_angle}
use nix2rdf.Reason.Token.{graph_token-to_nquads}
use nix2rdf.Iri.Sample.{letters}

abbrev pub kind : FragmentKind
kind = FragmentKind.drv (codes "h")

abbrev pub named : Quad
named = record {
  subject = codes "<s>";
  predicate = codes "<p>";
  object = codes "_:o";
  graph_name = some (graph letters kind);
}

abbrev other : Quad
other = record {
  subject = codes "<s>";
  predicate = codes "<q>";
  object = codes "_:o";
  graph_name = none;
}

-- The terms of `named`.
abbrev pub IsNamed : Quad → Type 0
IsNamed q = (q.subject ≡ codes "<s>") × (q.predicate ≡ codes "<p>") × (q.object ≡ codes "_:o")

pub quads_of : Str → List Quad
quads_of [] = []
quads_of (b ∷ s) = let rest = quads_of s in if b == b'\n' then named ∷ rest else rest

abbrev pub parse : Str → Option (List Quad)
parse s = some (quads_of s)

quads_of-lines :
    (qs : List Quad)
    → All IsNamed qs
    → quads_of (nquads_lines (show_iri (graph letters kind)) (quad_lines qs))
      ≡ relabel (graph letters kind) qs
unfolding quads_of nquads_lines quad_lines relabel in_graph triple show_iri graph Instances.drv
    Instances.id Instances.id_base
quads_of-lines [] h = refl
quads_of-lines (q ∷ qs) ((s, p, o), h) = rw (s, p, o, quads_of-lines qs h)

pub parse-IsNquadsParser : IsNquadsParser IsNamed (graph letters kind) parse
parse-IsNquadsParser qs h = ap some (quads_of-lines qs h)

pub named-IsNamed : All IsNamed (named ∷ [])
named-IsNamed = ((refl, refl, refl), tt)

abbrev pub two : List Quad
two = named ∷ other ∷ []

abbrev three : List Quad
three = other ∷ named ∷ other ∷ []

same_lines : (l : Str) → Set.member l (quad_lines two) ≡ Set.member l (quad_lines three)
unfolding quad_lines Set.member triple
same_lines l = ground arith

abbrev digest : Str → Str
digest s = codes "0"

abbrev pub one : Fragment
one = record { kind = kind; lines = codes "<s> <p> _:o" ∷ [] }

content_hash-eq_example :
    (one ≡ one)
    ⊎ ((to_nquads letters one ≢ to_nquads letters one)
        × (digest (to_nquads letters one) ≡ digest (to_nquads letters one)))
unfolding graph Instances.drv Instances.id Instances.id_base
content_hash-eq_example =
    content_hash-eq letters digest one one refl (omega arith) (omega arith) (omega arith) refl

to_quads-from_quads_example :
    (rs : List Quad) × (to_quads letters parse (from_quads kind (named ∷ [])) ≡ some rs)
    × (from_quads kind rs ≡ from_quads kind (named ∷ []))
to_quads-from_quads_example =
    to_quads-from_quads letters IsNamed parse kind (named ∷ []) parse-IsNquadsParser named-IsNamed

graph_token-to_nquads_example : graph_token (to_nquads letters one) ≡ some (graph letters kind)
unfolding graph Instances.drv Instances.id Instances.id_base is_angle
graph_token-to_nquads_example =
    graph_token-to_nquads letters one (codes "<s> <p> _:o") [] refl (omega arith) (omega arith)
      (omega arith) (ground arith)
