-- ===== src/Extract/NixpkgsEval.antt =====
-- crates/nix2rdf-core/src/extract/nixpkgs_eval.rs: a nixpkgs revision, from what nix-eval-jobs
-- prints. The derivations come from the `.drv` files or from Nix.
use nix2rdf.Base.{
  ◌≤◌, ◌≡◌, refl, ap, ◌∙◌, length, arith, length, ℕ, zero, suc, Bool, true, false, Option, none,
  some, List, [], ◌∷◌, ◌++◌, Str, codes, drop, take, if◌then◌else◌,
}
use nix2rdf.Base.Dedup
use nix2rdf.Base.Map
use nix2rdf.Base.Order.{str_ord}
use nix2rdf.Base.Result.{Result, ok, ◌>>=◌}
use nix2rdf.Base.Sort
use nix2rdf.Base.Steps.{for_each, if_some, ◌▷◌}
use nix2rdf.Crates.{Crates}
use nix2rdf.DrvFile.Closure.{Drvs}
use nix2rdf.Extract.Derivation.{add_meta}
use nix2rdf.Extract.Flake.Reference.{join}
use nix2rdf.Extract.Graph.{EnvMode, GraphExtraction, extract_from_drvs}
use nix2rdf.Extract.NixpkgsIndex.{Revision, revision_node}
use nix2rdf.Fragment.Build.{add_node, add_type, add_str}
use nix2rdf.Fragment.Kind.{FragmentKind}
use nix2rdf.Fragment.Lines.{Fragment, new}
use nix2rdf.Hash.Json.{Json}
use nix2rdf.Iri.Instances.{drv, nixpkgs, nixpkgs_attr}
use nix2rdf.Nix.Meta
use nix2rdf.Nix.Meta.{Meta}
use nix2rdf.Nix.Source.{Error, NixSource}
use nix2rdf.Vocab.{nix}

pub record EvalJob : Type 0 where
  pub attr : Str
  pub attr_path : List Str
  pub drv_path : Option Str
  pub meta : Option Json
  pub error : Option Str

pub record EvalOptions : Type 0 where
  pub revision : Revision
  pub system : Str
  pub allow_unfree : Bool
  pub drv_files : Bool
  pub extract : EnvMode

abbrev quoted : Str → Str
quoted s = b'"' ∷ (s ++ b'"' ∷ [])

unfoldable pub nar_argument : Str → Str
nar_argument [] = []
nar_argument (b ∷ nar) = codes " narHash = " ++ (quoted (b ∷ nar) ++ codes ";")

unfoldable pub default_expr : EvalOptions → Str
default_expr o =
    let unfree = if o.allow_unfree then codes "true" else codes "false" in
    codes "import (builtins.fetchTree { type = "
    ++ (quoted (codes "github")
        ++ (codes "; owner = "
            ++ (quoted (codes "NixOS")
                ++ (codes "; repo = "
                    ++ (quoted (codes "nixpkgs")
                        ++ (codes "; rev = "
                            ++ (quoted o.revision.rev
                                ++ (codes ";"
                                    ++ (nar_argument o.revision.nar_hash
                                        ++ (codes " }) { system = "
                                            ++ (quoted o.system
                                                ++ (codes "; config.allowUnfree = "
                                                    ++ (unfree
                                                        ++ codes
                                                            "; config.allowBroken = false; }")))))))))))))

-- The roots, and by their paths the attributes with what is recorded of them.
abbrev pub Collected : Type 0
Collected = List Str × List (Str × (Str × Meta))

unfoldable pub no_meta : Meta
no_meta = record {
  licenses = [];
  unfree = false;
  homepage = none;
  description = none;
  source_provenance = [];
}

unfoldable pub job_attr : EvalJob → Str
job_attr j = elim j.attr_path [ [] ↦ j.attr | p ∷ ps ↦ join (codes ".") (p ∷ ps) ]

unfoldable pub job_meta : EvalJob → Meta
job_meta j = elim j.meta [ none ↦ no_meta | some v ↦ Meta.from_json v ]

-- A job that failed or has no derivation is left out.
unfoldable pub collect_job : EvalJob → Collected → Collected
collect_job j (roots, metas) = elim j.error [
  | some e ↦ (roots, metas)
  | none ↦ elim j.drv_path [
    | none ↦ (roots, metas)
    | some d ↦ (roots ++ d ∷ [], Map.insert d (job_attr j, job_meta j) metas)
  ]
]

-- `BTreeMap::extend`
unfoldable pub extend : Drvs → Drvs → Drvs
extend [] all = all
extend ((p, d) ∷ m) all = extend m (Map.insert p d all)

-- `chunks(200)`; the fuel is the number of the elements.
unfoldable pub chunks_from : ℕ → List Str → List (List Str)
chunks_from fuel [] = []
chunks_from zero (x ∷ xs) = []
chunks_from (suc fuel) (x ∷ xs) = (x ∷ take 199 xs) ∷ chunks_from fuel (drop 199 xs)

unfoldable pub chunks : List Str → List (List Str)
chunks xs = chunks_from (length xs) xs

unfoldable pub concat : List (List Str) → List Str
concat [] = []
concat (xs ∷ xss) = xs ++ concat xss

take-drop : (n : ℕ) (xs : List Str) → take n xs ++ drop n xs ≡ xs
take-drop zero xs = refl
take-drop (suc n) [] = refl
take-drop (suc n) (x ∷ xs) = ap (λ ys. x ∷ ys) (take-drop n xs)

length-drop : (n : ℕ) (xs : List Str) → length (drop n xs) ≤ length xs
length-drop zero xs = omega arith
length-drop (suc n) [] = omega arith
length-drop (suc n) (x ∷ xs) = omega (arith, length-drop n xs)

concat-chunks_from :
    (fuel : ℕ) (xs : List Str) → length xs ≤ fuel → concat (chunks_from fuel xs) ≡ xs
unfolding chunks_from concat
concat-chunks_from fuel [] h = refl
concat-chunks_from zero (x ∷ xs) h = absurd (omega arith)
concat-chunks_from (suc fuel) (x ∷ xs) h =
    ap (λ ys. x ∷ (take 199 xs ++ ys))
      (concat-chunks_from fuel (drop 199 xs) (omega (arith, length-drop 199 xs)))
    ∙ ap (λ ys. x ∷ ys) (take-drop 199 xs)

-- The fuel is enough: no element is lost.
concat-chunks : (xs : List Str) → concat (chunks xs) ≡ xs
unfolding chunks
concat-chunks xs = concat-chunks_from (length xs) xs (omega arith)

unfoldable pub show_chunks : NixSource → List (List Str) → Drvs → Result Error Drvs
show_chunks source [] all = ok all
show_chunks source (chunk ∷ rest) all =
    source.derivation_show chunk true >>= λ m. show_chunks source rest (extend m all)

module _ (k : Crates) where
  -- The attribute of a root, whose derivation was extracted.
  unfoldable pub add_attribute : Str → GraphExtraction → Str × (Str × Meta) → Fragment → Fragment
  add_attribute rev graph (path, (attr, meta)) =
      let a = nixpkgs_attr rev attr in
      let rn = nixpkgs rev in
      if_some
        (λ h f.
          f
          ▷ add_type a (nix (codes "Attribute"))
          ▷ add_str k.quote a (nix (codes "attrPath")) attr
          ▷ add_node a (nix (codes "evaluatesTo")) (drv h)
          ▷ add_node rn (nix (codes "hasAttribute")) a
          ▷ add_node rn (nix (codes "evaluatesTo")) (drv h)
          ▷ add_meta k (drv h) meta)
        (Map.get path graph.drv_hashes)

  unfoldable pub revision_fragment :
      Revision → List (Str × (Str × Meta)) → GraphExtraction → Fragment
  revision_fragment revision metas graph =
      let rn = nixpkgs revision.rev in
      new (FragmentKind.nixpkgs revision.rev)
      ▷ revision_node k revision none
      ▷ add_type rn (nix (codes "Snapshot"))
      ▷ for_each (add_attribute revision.rev graph) metas
      ▷ for_each (λ h. add_node rn (nix (codes "evaluatesTo")) (drv h))
          (Map.values graph.drv_hashes)

  unfoldable pub fragments_from_jobs :
      NixSource
      → (List Str → Result Error Drvs)
      → EvalOptions
      → List EvalJob
      → Result Error (List Fragment)
  fragments_from_jobs source read_closure o jobs =
      let (all_roots, metas) = for_each collect_job jobs ([], []) in
      let roots = Dedup.dedup (Sort.sort all_roots) in
      do
        drvs ← if o.drv_files then read_closure roots else show_chunks source (chunks roots) []
        graph ← extract_from_drvs k source drvs o.extract
        ok (graph.fragments ++ revision_fragment o.revision metas graph ∷ [])
