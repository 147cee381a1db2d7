-- ===== src/Reason/Renaming.antt =====
-- `canonicalize_nulls` does not depend on the labels that the engine gives to nulls.
use nix2rdf.Base.{
  ◌>>=◌, ◌≡◌, inl, inr, refl, sym, ap, ◌∙◌, Option, some, List, [], ◌∷◌, ◌++◌, Str, codes, take,
  unwrap_or, arith, Bool-cases,
}
use nix2rdf.Base.Map
use nix2rdf.Base.Order.{str_ord}
use nix2rdf.Base.Outcome
use nix2rdf.Base.Outcome.{Outcome, done, panic}
use nix2rdf.Base.Set
use nix2rdf.Base.Set.{cmp_eq, eq_of_cmp_eq, cmp_eq_self}
use nix2rdf.Base.Utf8.{IsAscii}
use nix2rdf.Hash.Items.{sha256_hex_items, short_of_IsAscii, frames}
use nix2rdf.Reason.Nulls.{
  RdfTerm, iri, null, literal, lang_string, DerivedTriple, Term, Signatures, key, line,
  add_signature, add_triple, signatures, null_node, null_iris, conv, conv_fields, conv_triples,
  canonicalize_nulls, dedup, sort_by,
}

module _ (rename : Str → Str) where
  abbrev pub rename_term : RdfTerm → RdfTerm
  rename_term (null id) = null (rename id)
  rename_term (iri i) = iri i
  rename_term (literal l d) = literal l d
  rename_term (lang_string l g) = lang_string l g

  abbrev pub rename_triple : DerivedTriple → DerivedTriple
  rename_triple t = record { s = rename_term t.s; p = rename_term t.p; o = rename_term t.o }

  abbrev pub rename_triples : List DerivedTriple → List DerivedTriple
  rename_triples [] = []
  rename_triples (t ∷ ts) = rename_triple t ∷ rename_triples ts

  key-rename : (t : RdfTerm) → key (rename_term t) ≡ key t
  unfolding key
  key-rename (null id) = refl
  key-rename (iri i) = refl
  key-rename (literal l d) = refl
  key-rename (lang_string l g) = refl

  line-rename : (t : DerivedTriple) → line (rename_triple t) ≡ line t
  unfolding line
  line-rename t = rw (key-rename t.s, key-rename t.p, key-rename t.o)

  module _ (inj : (a b : Str) → rename a ≡ rename b → a ≡ b) where
    cmp_eq-rename : (a b : Str) → cmp_eq (rename a) (rename b) ≡ cmp_eq a b
    cmp_eq-rename a b = elim (Bool-cases (cmp_eq a b)) [
      | inl same ↦ cc (
        same,
        cmp_eq_self (rename b),
        ap (λ x. cmp_eq x (rename b)) (ap rename (eq_of_cmp_eq a b same)),
      )
      | inr other ↦ elim (Bool-cases (cmp_eq (rename a) (rename b))) [
        | inr off ↦ off ∙ sym other
        | inl on ↦
            let e = inj a b (eq_of_cmp_eq (rename a) (rename b) on) in
            absurd (cc (ap (λ x. cmp_eq x b) e, cmp_eq_self b, other))
      ]
    ]

    -- The same signatures under the new labels.
    abbrev Agree : Signatures → Signatures → Type 0
    Agree new old = (id : Str) → Map.get (rename id) new ≡ Map.get id old

    add_signature-Agree :
        (t : RdfTerm) (text : Str) (new old : Signatures)
        → Agree new old
        → Agree (add_signature (rename_term t) text new) (add_signature t text old)
    unfolding add_signature
    add_signature-Agree (iri i) text new old h id = h id
    add_signature-Agree (literal l d) text new old h id = h id
    add_signature-Agree (lang_string l g) text new old h id = h id
    add_signature-Agree (null n) text new old h id =
        let set : Option (List Str) → List Str = λ x. Set.insert text (unwrap_or [] x) in
        Map.get-insert (rename n) (rename id) (set (Map.get (rename n) new)) new
        ∙ rw (cmp_eq-rename id n, h id, h n) (sym (Map.get-insert n id (set (Map.get n old)) old))

    signatures-Agree :
        (ts : List DerivedTriple) (new old : Signatures)
        → Agree new old
        → Agree (signatures (rename_triples ts) new) (signatures ts old)
    unfolding signatures add_triple
    signatures-Agree [] new old h = h
    signatures-Agree (t ∷ ts) new old h =
        signatures-Agree ts _ _
          (rw (line-rename t) (add_signature-Agree t.o _ _ _ (add_signature-Agree t.s _ new old h)))

-- Digests are printed in ASCII.
abbrev pub HasAsciiDigests : (Str → Str) → Type 0
HasAsciiDigests digest = (text : Str) → IsAscii (digest text)

module _ (digest : Str → Str) (g : Str) where
  pub node_of : List Str → Str
  node_of sig = g ++ (codes "/n/" ++ take 16 (sha256_hex_items digest sig))

  pub nodes : Signatures → List (Str × Str)
  nodes [] = []
  nodes ((id, sig) ∷ sigs) = (id, node_of sig) ∷ nodes sigs

  null_node-done :
      HasAsciiDigests digest → (sig : List Str) → null_node digest g sig ≡ done (node_of sig)
  unfolding null_node node_of sha256_hex_items
  null_node-done a sig =
      ap (Outcome.map (λ h. g ++ (codes "/n/" ++ h)))
        (short_of_IsAscii (digest (frames sig)) (a (frames sig)))

  pub null_iris-done :
      HasAsciiDigests digest → (sigs : Signatures) → null_iris digest g sigs ≡ done (nodes sigs)
  unfolding null_iris nodes
  null_iris-done a [] = refl
  null_iris-done a ((id, sig) ∷ sigs) = ground (arith, null_node-done a sig, null_iris-done a sigs)

  pub get-nodes :
      (id : Str) (sigs : Signatures)
      → Map.get id (nodes sigs) ≡ (Map.get id sigs >>= λ sig. some (node_of sig))
  unfolding Map.get nodes
  get-nodes id [] = refl
  get-nodes id ((k, sig) ∷ sigs) = ground (arith, get-nodes id sigs)

conv-rename :
    (rename : Str → Str) (new old : List (Str × Str)) (t : RdfTerm)
    → ((id : Str) → Map.get (rename id) new ≡ Map.get id old)
    → conv new (rename_term rename t) ≡ conv old t
unfolding conv
conv-rename rename new old (iri i) h = refl
conv-rename rename new old (literal l d) h = refl
conv-rename rename new old (lang_string l g) h = refl
conv-rename rename new old (null id) h = ground (arith, h id)

conv_fields-rename :
    (rename : Str → Str) (new old : List (Str × Str)) (s p o : RdfTerm)
    → ((id : Str) → Map.get (rename id) new ≡ Map.get id old)
    → conv_fields new (rename_term rename s) (rename_term rename p) (rename_term rename o)
      ≡ conv_fields old s p o
unfolding conv_fields
conv_fields-rename rename new old s (iri p) o h =
    ground (arith, conv-rename rename new old s h, conv-rename rename new old o h)
conv_fields-rename rename new old s (null p) o h = refl
conv_fields-rename rename new old s (literal l d) o h = refl
conv_fields-rename rename new old s (lang_string l g) o h = refl

conv_triples-rename :
    (rename : Str → Str) (new old : List (Str × Str)) (ts : List DerivedTriple)
    → ((id : Str) → Map.get (rename id) new ≡ Map.get id old)
    → conv_triples new (rename_triples rename ts) ≡ conv_triples old ts
unfolding conv_triples
conv_triples-rename rename new old [] h = refl
conv_triples-rename rename new old (t ∷ ts) h = ground (
  arith,
  conv_fields-rename rename new old t.s t.p t.o h,
  conv_triples-rename rename new old ts h,
)

module _ (show : Term → Str) (digest : Str → Str) (g : Str) where
  pub canonicalize_nulls-nodes :
      HasAsciiDigests digest
      → (ts : List DerivedTriple)
      → canonicalize_nulls show digest g ts
        ≡ Outcome.map
            (λ xs. dedup (sort_by show xs))
            (conv_triples (nodes digest g (signatures ts [])) ts)
  unfolding canonicalize_nulls
  canonicalize_nulls-nodes a ts =
      ap (λ n. Outcome.bind n λ x. Outcome.map (λ xs. dedup (sort_by show xs)) (conv_triples x ts))
        (null_iris-done digest g a (signatures ts []))

  -- The result is the same whatever labels the engine gives to the nulls, if different nulls keep
  -- different labels and digests are ASCII.
  pub canonicalize_nulls-rename :
      (rename : Str → Str) (ts : List DerivedTriple)
      → ((a b : Str) → rename a ≡ rename b → a ≡ b)
      → HasAsciiDigests digest
      → canonicalize_nulls show digest g (rename_triples rename ts)
        ≡ canonicalize_nulls show digest g ts
  unfolding Map.get
  canonicalize_nulls-rename rename ts inj a =
      let new = signatures (rename_triples rename ts) [] in
      let old = signatures ts [] in
      let agree = signatures-Agree rename inj ts [] [] (λ id. refl) in
      let same : (id : Str)
          → Map.get (rename id) (nodes digest g new) ≡ Map.get id (nodes digest g old) =
        λ id.
          ground (arith, get-nodes digest g (rename id) new, get-nodes digest g id old, agree id) in
      canonicalize_nulls-nodes a (rename_triples rename ts)
      ∙ ap (Outcome.map (λ xs. dedup (sort_by show xs)))
          (conv_triples-rename rename (nodes digest g new) (nodes digest g old) ts same)
      ∙ sym (canonicalize_nulls-nodes a ts)
