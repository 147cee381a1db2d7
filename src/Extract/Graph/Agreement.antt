-- ===== src/Extract/Graph/Agreement.antt =====
-- The fragments of `extract_from_drvs` in extract/drv.rs, in two extractions.
use nix2rdf.Base.{
  ◌≡◌, refl, sym, ◌∙◌, inl, inr, Option, some, List, [], ◌∷◌, Str, arith, Bool-cases,
}
use mathlib.Core.Path.{subst}
use mathlib.Core.List.{Memᴰ}
use mathlib.Core.List.Memᴰ
use nix2rdf.Base.Map
use nix2rdf.Base.Order.{str_ord}
use nix2rdf.Base.Result.{ok, bind_ok}
use nix2rdf.Base.Set.{cmp_eq, eq_of_cmp_eq}
use nix2rdf.Crates.{Crates}
use nix2rdf.DrvFile.Closure.{Drvs}
use nix2rdf.Extract.Derivation.{hash_of, derivation_fragment, env_fragment}
use nix2rdf.Extract.Derivation.Inputs.{derivation_fragment_congr}
use nix2rdf.Extract.Graph.{
  EnvMode, hash_only, full, GraphExtraction, fragments_of, add_drvs, extract_from_drvs,
  source_hashes,
}
use nix2rdf.Extract.Graph.Sources.{IsStore, All_of_member, member-src_list, source_hashes-get}
use nix2rdf.Fragment.Lines.{Fragment}
use nix2rdf.Nix.Model.{DrvInfo, PathInfo}
use nix2rdf.Nix.Source.{NixSource}

fragments_of-has :
    (k : Crates) (env : EnvMode) (m : List (Str × Str)) (path : Str) (d : DrvInfo)
    (fs : List Fragment)
    → fragments_of k env m path d ≡ ok fs
    → (f : Fragment) × (derivation_fragment k path d m ≡ ok f) × Memᴰ f fs
unfolding fragments_of
fragments_of-has k hash_only m path d fs e =
    let (f, e1, e2) = bind_ok (derivation_fragment k path d m) _ fs e in
    let same : f ∷ [] ≡ fs = cc e2 in (f, e1, subst (Memᴰ f) same (Memᴰ.head refl))
fragments_of-has k full m path d fs e =
    let (f, e1, e2) = bind_ok (derivation_fragment k path d m) _ fs e in
    let (g, e3, e4) = bind_ok (env_fragment k path d) _ fs e2 in
    let same : f ∷ g ∷ [] ≡ fs = cc e4 in (f, e1, subst (Memᴰ f) same (Memᴰ.head refl))

module _ (k : Crates) (env : EnvMode) (m : List (Str × Str)) where
  add_drvs-keeps :
      (drvs : Drvs) (ex ex' : GraphExtraction) (f : Fragment)
      → add_drvs k env m drvs ex ≡ ok ex'
      → Memᴰ f ex.fragments
      → Memᴰ f ex'.fragments
  unfolding add_drvs
  add_drvs-keeps [] ex ex' f e h =
      let same : ex ≡ ex' = cc e in subst (λ x. Memᴰ f x.fragments) same h
  add_drvs-keeps ((path, d) ∷ drvs) ex ex' f e h =
      let (j, e1, e2) = bind_ok (hash_of path) _ ex' e in
      let (fs, e3, e4) = bind_ok (fragments_of k env m path d) _ ex' e2 in
      add_drvs-keeps drvs _ ex' f e4 (Memᴰ.append_left _ h)

  add_drvs-has :
      (drvs : Drvs) (ex ex' : GraphExtraction) (path : Str) (d : DrvInfo)
      → add_drvs k env m drvs ex ≡ ok ex'
      → Map.get path drvs ≡ some d
      → (f : Fragment) × (derivation_fragment k path d m ≡ ok f) × Memᴰ f ex'.fragments
  unfolding add_drvs Map.get
  add_drvs-has [] ex ex' path d e h = absurd (cc h)
  add_drvs-has ((p, w) ∷ drvs) ex ex' path d e h =
      let (j, e1, e2) = bind_ok (hash_of p) _ ex' e in
      let (fs, e3, e4) = bind_ok (fragments_of k env m p w) _ ex' e2 in
      elim (Bool-cases (cmp_eq path p)) [
        | inl same ↦
            let at : p ≡ path = sym (eq_of_cmp_eq path p same) in
            let is : w ≡ d = ground arith in
            let (f, e5, here) = fragments_of-has k env m p w fs e3 in
            (
              f,
              subst (λ x. derivation_fragment k x d m ≡ ok f) at
                  (subst (λ x. derivation_fragment k p x m ≡ ok f) is e5),
              add_drvs-keeps drvs _ ex' f e4 (Memᴰ.append_right ex.fragments here),
            )
        | inr other ↦ add_drvs-has drvs _ ex' path d e4 (ground arith)
      ]

-- The extraction as it is returned.
pub extract-parts :
    (k : Crates) (env : EnvMode) (nix : NixSource) (drvs : Drvs) (ex : GraphExtraction)
    → extract_from_drvs k nix drvs env ≡ ok ex
    → (source_hashes nix drvs ≡ ok ex.src_hashes)
      × ((path : Str) (d : DrvInfo)
          → Map.get path drvs ≡ some d
          → (f : Fragment) × (derivation_fragment k path d ex.src_hashes ≡ ok f)
            × Memᴰ f ex.fragments)
unfolding extract_from_drvs
extract-parts k env nix drvs ex e =
    let (m, e1, e2) = bind_ok (source_hashes nix drvs) _ ex e in
    let (x, e3, e4) = bind_ok (add_drvs k env m drvs _) _ ex e2 in
    let same : record x { src_hashes = m; drvs = drvs } ≡ ex = cc e4 in
    subst
      (λ r.
        (source_hashes nix drvs ≡ ok r.src_hashes)
        × ((path : Str) (d : DrvInfo)
            → Map.get path drvs ≡ some d
            → (f : Fragment) × (derivation_fragment k path d r.src_hashes ≡ ok f)
              × Memᴰ f r.fragments))
      same (e1, λ path d h. add_drvs-has k env m drvs _ x path d e3 h)

-- The fragment of a derivation is the same in every extraction that has it, whatever else is
-- extracted and with whatever options: Nix answers what the store knows.
pub extract_from_drvs-agree :
    (k : Crates) (nix : NixSource) (store : Str → Option PathInfo)
    → IsStore nix store
    → (drvs drvs' : Drvs) (env env' : EnvMode) (ex ex' : GraphExtraction)
    → extract_from_drvs k nix drvs env ≡ ok ex
    → extract_from_drvs k nix drvs' env' ≡ ok ex'
    → (path : Str) (d : DrvInfo) → Map.get path drvs ≡ some d
    → Map.get path drvs' ≡ some d
    → (f : Fragment) × (derivation_fragment k path d ex.src_hashes ≡ ok f)
      × Memᴰ f ex.fragments
      × Memᴰ f ex'.fragments
extract_from_drvs-agree k nix store s drvs drvs' env env' ex ex' e e' path d h h' =
    let (hashes, each) = extract-parts k env nix drvs ex e in
    let (hashes', each') = extract-parts k env' nix drvs' ex' e' in
    let (f, is, here) = each path d h in
    let (f', is', there) = each' path d h' in
    let agree = All_of_member d.input_srcs (λ p m.
      source_hashes-get nix store drvs ex.src_hashes p s hashes (member-src_list drvs path p d h m)
      ∙ sym (
          source_hashes-get nix store drvs' ex'.src_hashes p s hashes'
            (member-src_list drvs' path p d h' m))) in
    let same = derivation_fragment_congr k path d ex.src_hashes ex'.src_hashes agree in
    let one : f ≡ f' = cc in (f, is, here, subst (λ x. Memᴰ x ex'.fragments) (sym one) there)
