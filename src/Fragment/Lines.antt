-- ===== src/Fragment/Lines.antt =====
-- `Fragment` of crates/nix2rdf-core/src/fragment.rs: the set of lines of one named graph, its
-- canonical text and its hash. A term stands as the text that the crate oxrdf displays for it.
use nix2rdf.Base.{ℕ, ◌≡◌, refl, List, [], ◌∷◌, ◌++◌, Str, codes, Option, length, Bool}
use nix2rdf.Base.Order.{str_ord}
use nix2rdf.Base.Set
use nix2rdf.Fragment.Kind.{FragmentKind, graph}
use nix2rdf.Hash.Items.{sha256_hex}
use nix2rdf.Iri.Base64.{Base64}

-- `oxrdf::Quad`; the graph is `none` for the default graph.
pub record Quad : Type 0 where
  pub subject : Str
  pub predicate : Str
  pub object : Str
  pub graph_name : Option Str

pub record Fragment : Type 0 where
  pub kind : FragmentKind
  pub lines : List Str

unfoldable pub new : FragmentKind → Fragment
new kind = record { kind = kind; lines = [] }

unfoldable pub len : Fragment → ℕ
len f = length f.lines

unfoldable pub is_empty : Fragment → Bool
is_empty f = elim f.lines [ [] ↦ Bool.true | _ ∷ _ ↦ Bool.false ]

-- `format!("{s} {p} {o}")`
unfoldable pub triple : Str → Str → Str → Str
triple s p o = s ++ (b' ' ∷ (p ++ (b' ' ∷ o)))

unfoldable pub add : Str → Str → Str → Fragment → Fragment
add s p o f = record { kind = f.kind; lines = Set.insert (triple s p o) f.lines }

unfoldable pub add_quad : Quad → Fragment → Fragment
add_quad q f = record {
  kind = f.kind;
  lines = Set.insert (triple q.subject q.predicate q.object) f.lines;
}

unfoldable pub add_quads : List Quad → Fragment → Fragment
add_quads [] f = f
add_quads (q ∷ qs) f = add_quads qs (add_quad q f)

unfoldable pub from_quads : FragmentKind → List Quad → Fragment
from_quads kind quads = add_quads quads (new kind)

-- A named node is displayed in angle brackets.
unfoldable pub show_iri : Str → Str
show_iri iri = b'<' ∷ (iri ++ b'>' ∷ [])

unfoldable pub nquads_lines : Str → List Str → Str
nquads_lines g [] = []
nquads_lines g (l ∷ ls) = l ++ (b' ' ∷ (g ++ (codes " ." ++ (b'\n' ∷ nquads_lines g ls))))

module _ (c : Base64) where
  unfoldable pub to_nquads : Fragment → Str
  to_nquads f = nquads_lines (show_iri (graph c f.kind)) f.lines

  unfoldable pub content_hash : (Str → Str) → Fragment → Str
  content_hash digest f = sha256_hex digest (to_nquads f)

  -- `to_quads`, and `to_bytes` with the compression of the crate zstd; the parser is oxttl's.
  unfoldable pub to_quads : (Str → Option (List Quad)) → Fragment → Option (List Quad)
  to_quads parse_nquads f = parse_nquads (to_nquads f)

  unfoldable pub to_bytes : (Str → Option Str) → Fragment → Option Str
  to_bytes compress f = compress (to_nquads f)

-- `graph_of`
unfoldable pub graph_of : Quad → Option Str
graph_of q = q.graph_name

-- The lines of quads, in their order.
unfoldable pub quad_lines : List Quad → List Str
quad_lines [] = []
quad_lines (q ∷ qs) = triple q.subject q.predicate q.object ∷ quad_lines qs

pub add_quads-lines :
    (qs : List Quad) (f : Fragment) → (add_quads qs f).lines ≡ Set.extend (quad_lines qs) f.lines
unfolding add_quads quad_lines add_quad Set.extend
add_quads-lines [] f = refl
add_quads-lines (q ∷ qs) f = add_quads-lines qs (add_quad q f)

pub add_quads-kind : (qs : List Quad) (f : Fragment) → (add_quads qs f).kind ≡ f.kind
unfolding add_quads add_quad
add_quads-kind [] f = refl
add_quads-kind (q ∷ qs) f = add_quads-kind qs (add_quad q f)

pub from_quads-lines :
    (k : FragmentKind) (qs : List Quad) → (from_quads k qs).lines ≡ Set.extend (quad_lines qs) []
unfolding from_quads new
from_quads-lines k qs = add_quads-lines qs (new k)

pub from_quads-kind : (k : FragmentKind) (qs : List Quad) → (from_quads k qs).kind ≡ k
unfolding from_quads new
from_quads-kind k qs = add_quads-kind qs (new k)
