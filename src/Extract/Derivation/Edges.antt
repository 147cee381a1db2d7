-- ===== src/Extract/Derivation/Edges.antt =====
-- The edges of a derivation's fragment to its inputs, in `derivation_fragment` of extract/drv.rs.
use mathlib.Core.Path.{subst}
use nix2rdf.Base.{
  ◌≡◌, refl, sym, ap, ◌∙◌, inl, inr, true, ℕ, suc, none, some, List, [], ◌∷◌, Str, codes, arith,
  Option-cases, Bool-cases,
}
use nix2rdf.Base.Map
use nix2rdf.Base.Order.{str_ord}
use nix2rdf.Base.Set.{member, cmp_eq, eq_of_cmp_eq}
use nix2rdf.Base.Result.{ok, ◌>>=◌, ok_or, bind_ok}
use nix2rdf.Crates.{Crates}
use nix2rdf.Extract.Derivation.{
  no_nar_hash, add_text, hash_of, add_args, add_known, add_input, add_input_outputs, add_input_drvs,
  add_input_srcs, add_output, add_outputs, derivation_fragment, describe,
}
use nix2rdf.Fragment.Grows.{
  if_some-Grows, Has, Grows, edge, growth, Grows-refl, Grows-trans, add_node-Has, add_str-Grows,
}
use nix2rdf.Fragment.Kind.{FragmentKind}
use nix2rdf.Fragment.Lines.{Fragment, new}
use nix2rdf.Iri.Instances.{drv}
use nix2rdf.Nix.Model.{DrvInfo, InputDrv, OutputInfo}
use nix2rdf.Vocab.{nix}

new-kind : (kind : FragmentKind) → (new kind).kind ≡ kind
unfolding new
new-kind kind = refl

module _ (k : Crates) (s : Str) where
  add_args-Grows :
      (f : Fragment) (i : ℕ) (args : List Str) (x : Fragment)
      → Grows f x
      → Grows f (add_args k s i args x)
  unfolding add_args
  add_args-Grows f i [] x g = g
  add_args-Grows f i (a ∷ args) x g =
      add_args-Grows f (suc i) args _ (add_str-Grows f x k.quote s _ _ g)

  add_known-Grows :
      (f x : Fragment) (d : DrvInfo) (key : Str) → Grows f x → Grows f (add_known k s d key x)
  unfolding add_known
  add_known-Grows f x d key g = if_some-Grows (λ v. add_text k s key v) f x _ (λ v. search growth) g

  describe-Grows :
      (f x : Fragment) (path : Str) (d : DrvInfo) → Grows f x → Grows f (describe k s path d x)
  unfolding describe
  describe-Grows f x path d g = search (growth, add_args-Grows, add_known-Grows) depth 14

  add_input_outputs-Grows :
      (f : Fragment) (ih : Str) (outs : List Str) (x : Fragment)
      → Grows f x
      → Grows f (add_input_outputs k s ih outs x)
  unfolding add_input_outputs
  add_input_outputs-Grows f ih [] x g = g
  add_input_outputs-Grows f ih (o ∷ outs) x g =
      add_input_outputs-Grows f ih outs _ (add_str-Grows f x k.quote s _ _ g)

  add_input-Grows :
      (f x : Fragment) (ih : Str) (outs : InputDrv) → Grows f x → Grows f (add_input k s ih outs x)
  unfolding add_input
  add_input-Grows f x ih outs g = search (growth, add_input_outputs-Grows)

  add_input-Has :
      (f : Fragment) (ih : Str) (outs : InputDrv)
      → Has (edge s (nix (codes "dependsOn")) (drv ih)) (add_input k s ih outs f)
  unfolding add_input
  add_input-Has f ih outs =
      (add_input_outputs-Grows _ ih _ _ (Grows-refl _)).keeps _ (add_node-Has s _ (drv ih) _)

  add_output-Grows :
      (f x : Fragment) (oh name p : Str) → Grows f x → Grows f (add_output k s oh name p x)
  unfolding add_output
  add_output-Grows f x oh name p g = search growth

  add_input_drvs-Grows :
      (ins : List (Str × InputDrv)) (f g : Fragment) → add_input_drvs k s ins f ≡ ok g → Grows f g
  unfolding add_input_drvs
  add_input_drvs-Grows [] f g e = let same : f ≡ g = cc e in subst (Grows f) same (Grows-refl f)
  add_input_drvs-Grows ((p, outs) ∷ ins) f g e =
      let (h, at, rest) = bind_ok (hash_of p) _ g e in
      Grows-trans f _ g (add_input-Grows f f h outs (Grows-refl f))
        (add_input_drvs-Grows ins _ g rest)

  add_input_srcs-Grows :
      (path : Str) (m : List (Str × Str)) (srcs : List Str) (f g : Fragment)
      → add_input_srcs k s path m srcs f ≡ ok g
      → Grows f g
  unfolding add_input_srcs
  add_input_srcs-Grows path m [] f g e =
      let same : f ≡ g = cc e in subst (Grows f) same (Grows-refl f)
  add_input_srcs-Grows path m (p ∷ srcs) f g e =
      let (nar, at, rest) = bind_ok (ok_or (no_nar_hash p path) (Map.get p m)) _ g e in
      Grows-trans f _ g (search growth) (add_input_srcs-Grows path m srcs _ g rest)

  add_outputs-skip :
      (name : Str) (o : OutputInfo) (outs : List (Str × OutputInfo)) (f : Fragment)
      → o.path ≡ none
      → add_outputs k s ((name, o) ∷ outs) f ≡ add_outputs k s outs f
  unfolding add_outputs
  add_outputs-skip name o outs f e = ground arith

  add_outputs-add :
      (name p : Str) (o : OutputInfo) (outs : List (Str × OutputInfo)) (f : Fragment)
      → o.path ≡ some p
      → add_outputs k s ((name, o) ∷ outs) f
        ≡ (hash_of p >>= λ oh. add_outputs k s outs (add_output k s oh name p f))
  unfolding add_outputs
  add_outputs-add name p o outs f e = ground arith

  add_outputs-Grows :
      (outs : List (Str × OutputInfo)) (f g : Fragment) → add_outputs k s outs f ≡ ok g → Grows f g
  unfolding add_outputs
  add_outputs-Grows [] f g e = let same : f ≡ g = cc e in subst (Grows f) same (Grows-refl f)
  add_outputs-Grows ((name, o) ∷ outs) f g e = elim (Option-cases o.path) [
    | inl missing ↦ add_outputs-Grows outs f g (sym (add_outputs-skip name o outs f missing) ∙ e)
    | inr (p, there) ↦
        let step = add_outputs-add name p o outs f there in
        let (oh, at, rest) = bind_ok (hash_of p) _ g (sym step ∙ e) in
        Grows-trans f _ g (add_output-Grows f f oh name p (Grows-refl f))
          (add_outputs-Grows outs _ g rest)
  ]

  -- An input has an edge.
  add_input_drvs-Has :
      (ins : List (Str × InputDrv)) (f g : Fragment) (dep : Str)
      → add_input_drvs k s ins f ≡ ok g
      → member dep (Map.keys ins) ≡ true
      → (h : Str) × (hash_of dep ≡ ok h) × Has (edge s (nix (codes "dependsOn")) (drv h)) g
  unfolding add_input_drvs Map.keys member
  add_input_drvs-Has [] f g dep e m = absurd (cc m)
  add_input_drvs-Has ((p, outs) ∷ ins) f g dep e m =
      let (h, at, rest) = bind_ok (hash_of p) _ g e in
      elim (Bool-cases (cmp_eq dep p)) [
        | inl same ↦ (
          h,
          ap hash_of (eq_of_cmp_eq dep p same) ∙ at,
          (add_input_drvs-Grows ins _ g rest).keeps _ (add_input-Has f h outs),
        )
        | inr other ↦ add_input_drvs-Has ins _ g dep rest (ground arith)
      ]

-- The fragment of a derivation is named by its store hash, and has an edge to every input, which
-- is named by the input's.
pub derivation_fragment-edges :
    (k : Crates) (path : Str) (d : DrvInfo) (m : List (Str × Str)) (f : Fragment)
    → derivation_fragment k path d m ≡ ok f
    → (h : Str) × (hash_of path ≡ ok h)
      × (f.kind ≡ FragmentKind.drv h)
      × ((dep : Str)
          → member dep (Map.keys d.input_drvs) ≡ true
          → (j : Str) × (hash_of dep ≡ ok j)
            × Has (edge (drv h) (nix (codes "dependsOn")) (drv j)) f)
unfolding derivation_fragment
derivation_fragment-edges k path d m f e =
    let (h, at, e1) = bind_ok (hash_of path) _ f e in
    let f0 = new (FragmentKind.drv h) in
    let start = describe-Grows k (drv h) f0 f0 path d (Grows-refl f0) in
    let (f1, is1, e2) = bind_ok (add_input_drvs k (drv h) d.input_drvs _) _ f e1 in
    let (f2, is2, e3) = bind_ok (add_input_srcs k (drv h) path m d.input_srcs f1) _ f e2 in
    let more = add_input_drvs-Grows k (drv h) d.input_drvs _ f1 is1 in
    let srcs = add_input_srcs-Grows k (drv h) path m d.input_srcs f1 f2 is2 in
    let outs = add_outputs-Grows k (drv h) d.outputs f2 f e3 in
    (
      h,
      at,
      outs.same_kind
          ∙ srcs.same_kind
          ∙ more.same_kind
          ∙ start.same_kind
          ∙ new-kind (FragmentKind.drv h),
      λ dep here.
          let (j, is, has) = add_input_drvs-Has k (drv h) d.input_drvs _ f1 dep is1 here in
          (j, is, outs.keeps _ (srcs.keeps _ has)),
    )
