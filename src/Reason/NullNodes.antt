-- ===== src/Reason/NullNodes.antt =====
-- `canonicalize_nulls` finds a node for each null: it does not panic.
use nix2rdf.Base.{
  ◌≡◌, inl, inr, refl, ap, ◌∙◌, true, List, [], ◌∷◌, ◌++◌, Str, unwrap_or, arith, Option-cases,
  is_some, All, All-map,
}
use nix2rdf.Base.Map
use nix2rdf.Base.Order.{str_ord}
use nix2rdf.Base.Outcome
use nix2rdf.Base.Outcome.{Outcome, done, panic}
use nix2rdf.Base.Set
use nix2rdf.Base.Set.{cmp_eq, cmp_eq_self}
use nix2rdf.Reason.Nulls.{
  RdfTerm, iri, null, literal, lang_string, DerivedTriple, Term, Triple, Signatures, add_signature,
  add_triple, signatures, conv, conv_fields, conv_triples, canonicalize_nulls, dedup, sort_by,
}
use nix2rdf.Reason.Renaming.{HasAsciiDigests, nodes, get-nodes, canonicalize_nulls-nodes}

-- A term that has an entry, if it is a null.
abbrev IsKnown {ℓ} : {V : Type ℓ} → List (Str × V) → RdfTerm → Type 0
IsKnown m (null id) = Map.contains_key id m ≡ true
IsKnown m (iri i) = Unit
IsKnown m (literal l d) = Unit
IsKnown m (lang_string l g) = Unit

-- Every entry stays.
abbrev Keeps {ℓ κ} : {V : Type ℓ} {W : Type κ} → List (Str × V) → List (Str × W) → Type 0
Keeps m n = (id : Str) → Map.contains_key id m ≡ true → Map.contains_key id n ≡ true

Keeps-IsKnown {ℓ κ} :
    {V : Type ℓ} {W : Type κ} (m : List (Str × V)) (n : List (Str × W)) (t : RdfTerm)
    → Keeps m n
    → IsKnown m t
    → IsKnown n t
Keeps-IsKnown m n (null id) k h = k id h
Keeps-IsKnown m n (iri i) k h = tt
Keeps-IsKnown m n (literal l d) k h = tt
Keeps-IsKnown m n (lang_string l g) k h = tt

add_signature-Keeps :
    (t : RdfTerm) (text : Str) (sigs : Signatures) → Keeps sigs (add_signature t text sigs)
unfolding add_signature
add_signature-Keeps (iri i) text sigs id h = h
add_signature-Keeps (literal l d) text sigs id h = h
add_signature-Keeps (lang_string l g) text sigs id h = h
add_signature-Keeps (null n) text sigs id h =
    ground (arith, Map.get-insert n id (Set.insert text (unwrap_or [] (Map.get n sigs))) sigs)

add_signature-IsKnown :
    (t : RdfTerm) (text : Str) (sigs : Signatures) → IsKnown (add_signature t text sigs) t
unfolding add_signature
add_signature-IsKnown (iri i) text sigs = tt
add_signature-IsKnown (literal l d) text sigs = tt
add_signature-IsKnown (lang_string l g) text sigs = tt
add_signature-IsKnown (null n) text sigs =
    ground (arith, Map.get-insert_self n (Set.insert text (unwrap_or [] (Map.get n sigs))) sigs)

abbrev HasNodes {ℓ} : {V : Type ℓ} → List (Str × V) → DerivedTriple → Type 0
HasNodes m t = IsKnown m t.s × IsKnown m t.o

signatures-Keeps : (ts : List DerivedTriple) (sigs : Signatures) → Keeps sigs (signatures ts sigs)
unfolding signatures add_triple
signatures-Keeps [] sigs id h = h
signatures-Keeps (t ∷ ts) sigs id h =
    signatures-Keeps ts _ id (add_signature-Keeps t.o _ _ id (add_signature-Keeps t.s _ sigs id h))

add_triple-HasNodes : (t : DerivedTriple) (sigs : Signatures) → HasNodes (add_triple t sigs) t
unfolding add_triple
add_triple-HasNodes t sigs = (
  Keeps-IsKnown _ _ t.s (add_signature-Keeps t.o _ _) (add_signature-IsKnown t.s _ sigs),
  add_signature-IsKnown t.o _ _,
)

signatures-HasNodes :
    (ts : List DerivedTriple) (sigs : Signatures) → All (HasNodes (signatures ts sigs)) ts
unfolding signatures
signatures-HasNodes [] sigs = tt
signatures-HasNodes (t ∷ ts) sigs =
    let k = signatures-Keeps ts (add_triple t sigs) in
    let (s, o) = add_triple-HasNodes t sigs in
    (
      (Keeps-IsKnown _ _ t.s k s, Keeps-IsKnown _ _ t.o k o),
      signatures-HasNodes ts (add_triple t sigs),
    )

nodes-Keeps : (digest : Str → Str) (g : Str) (sigs : Signatures) → Keeps sigs (nodes digest g sigs)
nodes-Keeps digest g sigs id h = ground (arith, get-nodes digest g id sigs)

conv-done : (m : List (Str × Str)) (t : RdfTerm) → IsKnown m t → (x : Term) × (conv m t ≡ done x)
unfolding conv
conv-done m (iri i) h = (_, refl)
conv-done m (literal l d) h = (_, refl)
conv-done m (lang_string l g) h = (_, refl)
conv-done m (null id) h = elim (Option-cases (Map.get id m)) [
  | inl missing ↦ absurd (cc (ap is_some missing))
  | inr (n, found) ↦ (Term.named_node n, ground arith)
]

conv_fields-done :
    (m : List (Str × Str)) (s p o : RdfTerm)
    → IsKnown m s
    → IsKnown m o
    → (x : List Triple) × (conv_fields m s p o ≡ done x)
unfolding conv_fields
conv_fields-done m s (iri p) o h k =
    let (x, e) = conv-done m s h in let (y, f) = conv-done m o k in ((x, p, y) ∷ [], ground arith)
conv_fields-done m s (null p) o h k = ([], refl)
conv_fields-done m s (literal l d) o h k = ([], refl)
conv_fields-done m s (lang_string l g) o h k = ([], refl)

conv_triples-done :
    (m : List (Str × Str)) (ts : List DerivedTriple)
    → All (HasNodes m) ts
    → (xs : List Triple) × (conv_triples m ts ≡ done xs)
unfolding conv_triples
conv_triples-done m [] h = ([], refl)
conv_triples-done m (t ∷ ts) ((s, o), h) =
    let (x, e) = conv_fields-done m t.s t.p t.o s o in
    let (xs, f) = conv_triples-done m ts h in (x ++ xs, ground arith)

-- Every null has a node and the call returns, if digests are ASCII.
pub canonicalize_nulls-done :
    (show : Term → Str) (digest : Str → Str) (g : Str) (ts : List DerivedTriple)
    → HasAsciiDigests digest
    → (xs : List Triple) × (canonicalize_nulls show digest g ts ≡ done xs)
canonicalize_nulls-done show digest g ts a =
    let sigs = signatures ts [] in
    let m = nodes digest g sigs in
    let k = nodes-Keeps digest g sigs in
    let known =
      All-map (λ t (s, o). (Keeps-IsKnown sigs m t.s k s, Keeps-IsKnown sigs m t.o k o)) ts
        (signatures-HasNodes ts []) in
    let (xs, e) = conv_triples-done m ts known in
    (
      dedup (sort_by show xs),
      canonicalize_nulls-nodes show digest g a ts
          ∙ ap (Outcome.map (λ ys. dedup (sort_by show ys))) e,
    )
