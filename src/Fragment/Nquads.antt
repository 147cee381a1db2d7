-- ===== src/Fragment/Nquads.antt =====
-- The canonical text of a fragment: one text for one set of triples, and the way back.
use mathlib.Core.List.{append_cancel_right}
use nix2rdf.Base.{
  ◌∙◌, ℕ, ◌≡◌, ◌≢◌, ◌⊎◌, inl, inr, refl, sym, ap, List, [], ◌∷◌, ◌++◌, append_assoc, Str, codes,
  Option, some, arith, All, All-append, Lacks, split_once, split_once_at, Bool-cases, str_eq,
  eq_of_str_eq, str_eq_refl,
}
use nix2rdf.Base.Order.{str_ord, str_cmp, Ordering-cases}
use nix2rdf.Base.Set
use nix2rdf.Fragment.Kind.{FragmentKind, graph}
use nix2rdf.Fragment.Lines.{
  Quad, Fragment, quad_lines, from_quads, from_quads-lines, from_quads-kind, nquads_lines, triple,
  show_iri, to_nquads, to_quads, content_hash,
}
use nix2rdf.Hash.Items.{sha256_hex}
use nix2rdf.Iri.Base64.{Base64}

Fragment-eq : (f g : Fragment) → f.kind ≡ g.kind → f.lines ≡ g.lines → f ≡ g
Fragment-eq f g k l = cc

-- Fragments made of the same triples are equal, in whatever order and however often the triples
-- are added.
pub from_quads_congr :
    (k : FragmentKind) (qs rs : List Quad)
    → ((l : Str) → Set.member l (quad_lines qs) ≡ Set.member l (quad_lines rs))
    → from_quads k qs ≡ from_quads k rs
from_quads_congr k qs rs e = Fragment-eq _ _ (from_quads-kind k qs ∙ sym (from_quads-kind k rs)) (
    from_quads-lines k qs
    ∙ Set.extend_congr (quad_lines qs) (quad_lines rs) [] tt e
    ∙ sym (from_quads-lines k rs))

append_cons-ne-nil : (s : Str) (b : ℕ) (t : Str) → s ++ b ∷ t ≢ []
append_cons-ne-nil [] b t e = cc
append_cons-ne-nil (a ∷ s) b t e = cc

abbrev line_end : Str → Str
line_end g = b' ' ∷ (g ++ codes " .")

nquads_line :
    (g l : Str) (ls : List Str)
    → nquads_lines g (l ∷ ls) ≡ (l ++ line_end g) ++ (b'\n' ∷ nquads_lines g ls)
unfolding nquads_lines
nquads_line g l ls = sym (
    append_assoc l (line_end g) (b'\n' ∷ nquads_lines g ls)
    ∙ ap (λ s. l ++ (b' ' ∷ s)) (append_assoc g (codes " .") (b'\n' ∷ nquads_lines g ls)))

nquads_nil : (g : Str) → nquads_lines g [] ≡ []
unfolding nquads_lines
nquads_nil g = refl

-- No line break in a line.
abbrev pub IsLine : Str → Type 0
IsLine = Lacks b'\n'

line_end-IsLine : (g l : Str) → IsLine g → IsLine l → IsLine (l ++ line_end g)
line_end-IsLine g l hg hl =
    All-append _ l (line_end g) hl (omega arith, All-append _ g (codes " .") hg (omega arith))

nquads_lines-injective :
    (g : Str) (ls ms : List Str)
    → IsLine g
    → All IsLine ls
    → All IsLine ms
    → nquads_lines g ls ≡ nquads_lines g ms
    → ls ≡ ms
nquads_lines-injective g [] [] hg hl hm e = refl
nquads_lines-injective g [] (m ∷ ms) hg hl hm e =
    absurd
      (append_cons-ne-nil (m ++ line_end g) _ _ (sym (nquads_line g m ms) ∙ sym e ∙ nquads_nil g))
nquads_lines-injective g (l ∷ ls) [] hg hl hm e =
    absurd (append_cons-ne-nil (l ++ line_end g) _ _ (sym (nquads_line g l ls) ∙ e ∙ nquads_nil g))
nquads_lines-injective g (l ∷ ls) (m ∷ ms) hg (hl, hls) (hm, hms) e =
    let cut =
      split_once_at b'\n' (l ++ line_end g) (nquads_lines g ls) (line_end-IsLine g l hg hl) in
    let cut' =
      split_once_at b'\n' (m ++ line_end g) (nquads_lines g ms) (line_end-IsLine g m hg hm) in
    let same = sym (nquads_line g l ls) ∙ e ∙ nquads_line g m ms in
    let both = sym cut ∙ ap (split_once b'\n') same ∙ cut' in
    let heads : l ++ line_end g ≡ m ++ line_end g = cc in
    let rests : nquads_lines g ls ≡ nquads_lines g ms = cc in
    let p = append_cancel_right l m (line_end g) heads in
    let ps = nquads_lines-injective g ls ms hg hls hms rests in cc

-- Two fragments of one kind, whose graph and lines have no line break, hold the same triples if
-- they have one content hash, unless their two different texts have one digest.
pub content_hash-eq :
    (c : Base64) (digest : Str → Str) (f g : Fragment)
    → f.kind ≡ g.kind
    → IsLine (graph c f.kind)
    → All IsLine f.lines
    → All IsLine g.lines
    → content_hash c digest f ≡ content_hash c digest g
    → (f ≡ g)
      ⊎ ((to_nquads c f ≢ to_nquads c g) × (digest (to_nquads c f) ≡ digest (to_nquads c g)))
unfolding content_hash sha256_hex to_nquads show_iri
content_hash-eq c digest f g k hg hf hf' e =
    let s = to_nquads c f in
    let t = to_nquads c g in
    elim (Bool-cases (str_eq s t)) [
      | inl same ↦
          let texts = eq_of_str_eq s t same in
          let node =
            All-append _ (b'<' ∷ graph c f.kind) (b'>' ∷ []) (omega arith, hg) (omega arith) in
          let p = ap (λ x. nquads_lines (show_iri (graph c x)) g.lines) k in
          inl (
            Fragment-eq f g k
              (nquads_lines-injective _ f.lines g.lines node hf hf' (texts ∙ sym p)))
      | inr other ↦ inr ((λ p. cc (str_eq_refl t, ap (λ x. str_eq x t) p)), e)
    ]

unfoldable pub in_graph : Str → Quad → Quad
in_graph g q = record {
  subject = q.subject;
  predicate = q.predicate;
  object = q.object;
  graph_name = some g;
}

unfoldable pub relabel : Str → List Quad → List Quad
relabel g [] = []
relabel g (q ∷ qs) = in_graph g q ∷ relabel g qs

-- What oxttl documents: quads whose terms are well-formed, printed one to a line, are read back.
abbrev pub IsNquadsParser :
    (valid : Quad → Type 0) (g : Str) (parse : Str → Option (List Quad)) → Type 0
IsNquadsParser valid g parse =
    (qs : List Quad)
    → All valid qs
    → parse (nquads_lines (show_iri g) (quad_lines qs)) ≡ some (relabel g qs)

module _ (valid : Quad → Type 0) where
  insert-quad_lines :
      (q : Quad) (qs : List Quad)
      → valid q
      → All valid qs
      → (rs : List Quad) × (Set.insert (triple q.subject q.predicate q.object) (quad_lines qs)
          ≡ quad_lines rs)
        × All valid rs
  unfolding Set.insert quad_lines
  insert-quad_lines q [] v h = (q ∷ [], refl, (v, tt))
  insert-quad_lines q (r ∷ rs) v (w, h) =
      let a = triple q.subject q.predicate q.object in
      let b = triple r.subject r.predicate r.object in
      let (ts, e, k) = insert-quad_lines q rs v h in
      elim (Ordering-cases (str_cmp a b)) [
        | inl lt ↦ (q ∷ r ∷ rs, Set.insert-lt a b _ lt, (v, (w, h)))
        | inr (inl eq) ↦ (r ∷ rs, Set.insert-eq a b _ eq, (w, h))
        | inr (inr gt) ↦ (r ∷ ts, Set.insert-gt a b _ gt ∙ ap (λ s. b ∷ s) e, (w, k))
      ]

  extend-quad_lines :
      (qs ss : List Quad)
      → All valid qs
      → All valid ss
      → (rs : List Quad) × (Set.extend (quad_lines qs) (quad_lines ss) ≡ quad_lines rs)
        × All valid rs
  unfolding Set.extend quad_lines
  extend-quad_lines [] ss h k = (ss, refl, k)
  extend-quad_lines (q ∷ qs) ss (v, h) k =
      let (ts, e, w) = insert-quad_lines q ss v k in
      let (rs, e', w') = extend-quad_lines qs ts h w in
      (rs, ap (Set.extend (quad_lines qs)) e ∙ e', w')

relabel-lines : (g : Str) (qs : List Quad) → quad_lines (relabel g qs) ≡ quad_lines qs
unfolding relabel in_graph quad_lines
relabel-lines g [] = refl
relabel-lines g (q ∷ qs) = ap (λ t. triple q.subject q.predicate q.object ∷ t) (relabel-lines g qs)

-- The quads that are read from a fragment's text make that fragment again, if the parser reads
-- what was printed and the terms of the quads that made the fragment are well-formed.
pub to_quads-from_quads :
    (c : Base64) (valid : Quad → Type 0) (parse : Str → Option (List Quad)) (k : FragmentKind)
    (qs : List Quad)
    → IsNquadsParser valid (graph c k) parse
    → All valid qs
    → (rs : List Quad) × (to_quads c parse (from_quads k qs) ≡ some rs)
      × (from_quads k rs ≡ from_quads k qs)
unfolding to_quads to_nquads quad_lines
to_quads-from_quads c valid parse k qs p h =
    let f = from_quads k qs in
    let g = graph c k in
    let (rs, e, w) = extend-quad_lines valid qs [] h tt in
    let lines : f.lines ≡ quad_lines rs = from_quads-lines k qs ∙ e in
    let sorted : Set.IsSorted (quad_lines rs) =
      rw (← e) (Set.extend-IsSorted (quad_lines qs) [] tt) in
    let text : nquads_lines (show_iri (graph c f.kind)) f.lines
        ≡ nquads_lines (show_iri g) (quad_lines rs) =
      rw (from_quads-kind k qs, lines) in
    let back : (from_quads k (relabel g rs)).lines ≡ f.lines =
      from_quads-lines k (relabel g rs)
      ∙ ap (λ ls. Set.extend ls []) (relabel-lines g rs)
      ∙ Set.extend_of_IsSorted (quad_lines rs) sorted
      ∙ sym lines in
    (
      relabel g rs,
      ap parse text ∙ p rs w,
      Fragment-eq _ f (from_quads-kind k (relabel g rs) ∙ sym (from_quads-kind k qs)) back,
    )
