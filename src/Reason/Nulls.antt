-- ===== src/Reason/Nulls.antt =====
-- `canonicalize_nulls`: every existential null of a rule run becomes an IRI, the hash of the triples
-- that it stands in. The displayed form of a term is the crate oxrdf's.
use nix2rdf.Base.{
  Bool, false, ◌&&◌, none, some, List, [], ◌∷◌, ◌++◌, Str, codes, str_eq, if◌then◌else◌, unwrap_or,
}
use nix2rdf.Base.Map
use nix2rdf.Base.Order.{str_ord, str_cmp, then_cmp}
use nix2rdf.Base.Outcome
use nix2rdf.Base.Outcome.{Outcome, done, panic}
use nix2rdf.Base.Set
use nix2rdf.Hash.Items.{sha256_hex_items, short}
use Prim.Native.Nat.{Ordering}

pub data RdfTerm : Type 0 where
  iri null : Str → RdfTerm
  literal lang_string : Str → Str → RdfTerm

pub record DerivedTriple : Type 0 where
  pub s : RdfTerm
  pub p : RdfTerm
  pub o : RdfTerm

-- `oxrdf::Term`, without the blank nodes that do not occur.
pub data Term : Type 0 where
  named_node : Str → Term
  typed_literal tagged_literal : Str → Str → Term

-- A term of a signature: a null is a placeholder.
unfoldable pub key : RdfTerm → Str
key (null id) = codes "_"
key (iri i) = b'<' ∷ (i ++ b'>' ∷ [])
key (literal l d) = b'"' ∷ (l ++ (b'"' ∷ (codes "^^<" ++ (d ++ b'>' ∷ []))))
key (lang_string l g) = b'"' ∷ (l ++ (b'"' ∷ (b'@' ∷ g)))

unfoldable pub line : DerivedTriple → Str
line t = key t.s ++ (b' ' ∷ (key t.p ++ (b' ' ∷ key t.o)))

abbrev pub Signatures : Type 0
Signatures = List (Str × List Str)

-- `sigs.entry(id).or_default().insert(…)` where the term is a null.
unfoldable pub add_signature : RdfTerm → Str → Signatures → Signatures
add_signature (null id) text sigs =
    Map.insert id (Set.insert text (unwrap_or [] (Map.get id sigs))) sigs
add_signature _ text sigs = sigs

unfoldable pub add_triple : DerivedTriple → Signatures → Signatures
add_triple t sigs =
    add_signature t.o (codes "O " ++ line t) (add_signature t.s (codes "S " ++ line t) sigs)

unfoldable pub signatures : List DerivedTriple → Signatures → Signatures
signatures [] sigs = sigs
signatures (t ∷ ts) sigs = signatures ts (add_triple t sigs)

module _ (digest : Str → Str) (derived_graph : Str) where
  -- The node of one signature.
  unfoldable pub null_node : List Str → Outcome Str
  null_node sig =
      Outcome.map (λ h. derived_graph ++ (codes "/n/" ++ h)) (short (sha256_hex_items digest sig))

  unfoldable pub null_iris : Signatures → Outcome (List (Str × Str))
  null_iris [] = done []
  null_iris ((id, sig) ∷ sigs) =
      let rest = null_iris sigs in
      Outcome.bind (null_node sig) λ n. Outcome.map (λ r. (id, n) ∷ r) rest

-- `null_iri[id]` panics where the map has no entry.
unfoldable pub conv : List (Str × Str) → RdfTerm → Outcome Term
conv nodes (iri i) = done (named_node i)
conv nodes (literal l d) = done (typed_literal l d)
conv nodes (lang_string l g) = done (tagged_literal l g)
conv nodes (null id) = elim (Map.get id nodes) [ none ↦ panic | some n ↦ done (named_node n) ]

abbrev pub Triple : Type 0
Triple = Term × Str × Term

-- A triple whose predicate is no IRI is left out.
unfoldable pub conv_fields : List (Str × Str) → RdfTerm → RdfTerm → RdfTerm → Outcome (List Triple)
conv_fields nodes s (iri p) o =
    Outcome.bind (conv nodes s) λ x. Outcome.map (λ y. (x, p, y) ∷ []) (conv nodes o)
conv_fields nodes s _ o = done []

unfoldable pub conv_triples : List (Str × Str) → List DerivedTriple → Outcome (List Triple)
conv_triples nodes [] = done []
conv_triples nodes (t ∷ ts) =
    let rest = conv_triples nodes ts in
    Outcome.bind (conv_fields nodes t.s t.p t.o) λ x. Outcome.map (λ xs. x ++ xs) rest

unfoldable pub term_eq : Term → Term → Bool
term_eq (named_node a) (named_node b) = str_eq a b
term_eq (typed_literal a b) (typed_literal x y) = str_eq a x && str_eq b y
term_eq (tagged_literal a b) (tagged_literal x y) = str_eq a x && str_eq b y
term_eq _ _ = false

abbrev pub triple_eq : Triple → Triple → Bool
triple_eq (s, p, o) (s', p', o') = term_eq s s' && (str_eq p p' && term_eq o o')

-- `dedup` keeps the first of equal neighbours: `a` is the last that was kept.
unfoldable pub dedup_after : Triple → List Triple → List Triple
dedup_after a [] = []
dedup_after a (b ∷ l) =
    let rest = dedup_after b l in
    let same = dedup_after a l in if triple_eq a b then same else b ∷ rest

unfoldable pub dedup : List Triple → List Triple
dedup [] = []
dedup (a ∷ l) = a ∷ dedup_after a l

module _ (show : Term → Str) where
  unfoldable pub triple_cmp : Triple → Triple → Ordering
  triple_cmp (s, p, o) (s', p', o') =
      then_cmp (str_cmp (show s) (show s')) (then_cmp (str_cmp p p') (str_cmp (show o) (show o')))

  -- `sort_by` is stable.
  unfoldable pub insert_by : Triple → List Triple → List Triple
  insert_by a [] = a ∷ []
  insert_by a (b ∷ l) =
      let later = b ∷ insert_by a l in elim (triple_cmp a b) [ Ordering.gt ↦ later | _ ↦ a ∷ b ∷ l ]

  unfoldable pub sort_by : List Triple → List Triple
  sort_by [] = []
  sort_by (a ∷ l) = insert_by a (sort_by l)

  unfoldable pub canonicalize_nulls : (Str → Str) → Str → List DerivedTriple → Outcome (List Triple)
  canonicalize_nulls digest derived_graph triples =
      Outcome.bind (null_iris digest derived_graph (signatures triples []))
        λ nodes. Outcome.map (λ ts. dedup (sort_by ts)) (conv_triples nodes triples)
