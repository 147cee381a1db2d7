-- ===== src/Packs/Bindings.antt =====
-- What `collect_prefixes` returns binds each declared prefix as it is declared.
use nix2rdf.Base.{
  ◌≡◌, refl, sym, ap, ◌∙◌, inl, inr, none, some, List, [], ◌∷◌, Str, eq_of_str_eq, arith,
  Option-cases,
}
use nix2rdf.Base.Map
use nix2rdf.Base.Order.{str_ord}
use nix2rdf.Base.Set.{eq_of_cmp_eq}
use nix2rdf.Base.Split.{lines}
use nix2rdf.Packs.Model.{Pack}
use nix2rdf.Packs.Prefixes.{
  Result, ok, err, ◌>>=◌, Prefixes, Line, rule, bad, declaration, read_line, State, declare,
  add_read, add_line, add_lines, add_files, add_packs, collect_prefixes, DeclaresLine, DeclaresFile,
  Declares,
}

-- Every binding stays.
abbrev Keeps : Prefixes → Prefixes → Type 0
Keeps m n = (p i : Str) → Map.get p m ≡ some i → Map.get p n ≡ some i

bind_ok :
    {A B : Type 0} (r : Result A) (f : A → Result B) (b : B)
    → (r >>= f) ≡ ok b
    → (a : A) × (r ≡ ok a) × (f a ≡ ok b)
bind_ok (ok a) f b h = (a, refl, h)
bind_ok (err e) f b h = absurd (cc h)

declare_missing :
    (pfx iri : Str) (m : Prefixes)
    → Map.get pfx m ≡ none
    → declare pfx iri m ≡ ok (Map.insert pfx iri m)
unfolding declare
declare_missing pfx iri m h = ground arith

declare_present :
    (pfx iri prev : Str) (m n : Prefixes)
    → Map.get pfx m ≡ some prev
    → declare pfx iri m ≡ ok n
    → (prev ≡ iri) × (n ≡ m)
unfolding declare
declare_present pfx iri prev m n h e = ground (arith, eq_of_str_eq prev iri)

insert-Keeps :
    (pfx iri : Str) (m : Prefixes) → Map.get pfx m ≡ none → Keeps m (Map.insert pfx iri m)
insert-Keeps pfx iri m h p i g = ground (arith, Map.get-insert pfx p iri m, eq_of_cmp_eq p pfx)

declare-Keeps :
    (pfx iri : Str) (m n : Prefixes)
    → declare pfx iri m ≡ ok n
    → Keeps m n × (Map.get pfx n ≡ some iri)
declare-Keeps pfx iri m n e = elim (Option-cases (Map.get pfx m)) [
  | inl h ↦
      let same : Map.insert pfx iri m ≡ n = cc (declare_missing pfx iri m h) in
      (
        λ p i g. ap (Map.get p) (sym same) ∙ insert-Keeps pfx iri m h p i g,
        ap (Map.get pfx) (sym same) ∙ Map.get-insert_self pfx iri m,
      )
  | inr (prev, h) ↦
      let (is, same) = declare_present pfx iri prev m n h e in
      ((λ p i g. ap (Map.get p) same ∙ g), ap (Map.get pfx) same ∙ h ∙ ap some is)
]

add_read-Keeps :
    (pack line : Str) (l : Line) (st next : State)
    → add_read pack line l st ≡ ok next
    → Keeps st.0 next.0 × ((p i : Str) → l ≡ declaration p i → Map.get p next.0 ≡ some i)
unfolding add_read
add_read-Keeps pack line rule (m, body) (n, text) e =
    let same : m ≡ n = cc in ((λ p i g. ap (Map.get p) (sym same) ∙ g), λ p i d. absurd (cc d))
add_read-Keeps pack line bad (m, body) (n, text) e = absurd (cc e)
add_read-Keeps pack line (declaration pfx iri) (m, body) (n, text) e =
    let (k, d, f) = bind_ok (declare pfx iri m) (λ ps. ok (ps, body)) (n, text) e in
    let same : k ≡ n = cc in
    let (keeps, bound) = declare-Keeps pfx iri m k d in
    (
      λ p i g. ap (Map.get p) (sym same) ∙ keeps p i g,
      λ p i q.
          let at : pfx ≡ p = cc q in
          let is : iri ≡ i = cc q in
          ap (λ x. Map.get x n) (sym at) ∙ ap (Map.get pfx) (sym same) ∙ bound ∙ ap some is,
    )

add_lines-Keeps :
    (pack : Str) (ls : List Str) (st next : State)
    → add_lines pack ls st ≡ ok next
    → Keeps st.0 next.0 × ((p i : Str) → DeclaresLine ls p i → Map.get p next.0 ≡ some i)
unfolding add_lines add_line
add_lines-Keeps pack [] st next e =
    let same : st ≡ next = cc in
    ((λ p i g. ap (λ x. Map.get p x.0) (sym same) ∙ g), λ p i d. absurd d)
add_lines-Keeps pack (l ∷ ls) st next e =
    let (mid, f, g) = bind_ok (add_read pack l (read_line l) st) (add_lines pack ls) next e in
    let (keeps, bound) = add_read-Keeps pack l (read_line l) st mid f in
    let (keeps', bound') = add_lines-Keeps pack ls mid next g in
    (
      λ p i h. keeps' p i (keeps p i h),
      λ p i d. elim d [ inl here ↦ keeps' p i (bound p i here) | inr later ↦ bound' p i later ],
    )

add_files-Keeps :
    (pack : Str) (files : List (Str × Str)) (st next : State)
    → add_files pack files st ≡ ok next
    → Keeps st.0 next.0 × ((p i : Str) → DeclaresFile files p i → Map.get p next.0 ≡ some i)
unfolding add_files
add_files-Keeps pack [] st next e =
    let same : st ≡ next = cc in
    ((λ p i g. ap (λ x. Map.get p x.0) (sym same) ∙ g), λ p i d. absurd d)
add_files-Keeps pack ((file, text) ∷ files) (m, body) next e =
    let (mid, f, g) = bind_ok (add_lines pack (lines text) _) (add_files pack files) next e in
    let (keeps, bound) = add_lines-Keeps pack (lines text) _ mid f in
    let (keeps', bound') = add_files-Keeps pack files mid next g in
    (
      λ p i h. keeps' p i (keeps p i h),
      λ p i d. elim d [ inl here ↦ keeps' p i (bound p i here) | inr later ↦ bound' p i later ],
    )

add_packs-Keeps :
    (packs : List Pack) (st next : State)
    → add_packs packs st ≡ ok next
    → Keeps st.0 next.0 × ((p i : Str) → Declares packs p i → Map.get p next.0 ≡ some i)
unfolding add_packs
add_packs-Keeps [] st next e =
    let same : st ≡ next = cc in
    ((λ p i g. ap (λ x. Map.get p x.0) (sym same) ∙ g), λ p i d. absurd d)
add_packs-Keeps (q ∷ packs) st next e =
    let (mid, f, g) =
      bind_ok (add_files q.manifest.name q.rule_files st) (add_packs packs) next e in
    let (keeps, bound) = add_files-Keeps q.manifest.name q.rule_files st mid f in
    let (keeps', bound') = add_packs-Keeps packs mid next g in
    (
      λ p i h. keeps' p i (keeps p i h),
      λ p i d. elim d [ inl here ↦ keeps' p i (bound p i here) | inr later ↦ bound' p i later ],
    )

-- Where `collect_prefixes` succeeds, every prefix that a pack declares is bound to the IRI that it
-- is declared with; so no two declarations disagree.
pub collect_prefixes-Declares :
    (packs : List Pack) (st : State) (pfx iri : Str)
    → collect_prefixes packs ≡ ok st
    → Declares packs pfx iri
    → Map.get pfx st.0 ≡ some iri
unfolding collect_prefixes
collect_prefixes-Declares packs st pfx iri e d = (add_packs-Keeps packs ([], []) st e).1 pfx iri d
