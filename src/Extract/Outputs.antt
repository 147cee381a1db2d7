-- ===== src/Extract/Outputs.antt =====
-- `outputs_fragment` and `extract_outputs` of crates/nix2rdf-core/src/extract/drv.rs: what a build
-- leaves, with its runtime references.
use nix2rdf.Base.{Option, none, some, List, [], ◌∷◌, ◌++◌, Str, codes, str_eq, if◌then◌else◌}
use nix2rdf.Base.Map
use nix2rdf.Base.Order.{str_ord}
use nix2rdf.Base.Result.{Result, ok, ◌>>=◌}
use nix2rdf.Crates.{Crates}
use nix2rdf.Extract.Derivation.{hash_of, add_text, add_output}
use nix2rdf.Fragment.Build.{add_node}
use nix2rdf.Fragment.Kind.{FragmentKind}
use nix2rdf.Fragment.Lines.{Fragment, new}
use nix2rdf.Iri.Instances.{drv, out}
use nix2rdf.Iri.StorePath.{store_path_hash}
use nix2rdf.Nix.Model.{PathInfo}
use nix2rdf.Nix.Source.{Error, NixSource, BuildResult}
use nix2rdf.Vocab.{nix}

-- `BTreeMap<String, Option<PathInfo>>`
abbrev pub Infos : Type 0
Infos = List (Str × Option PathInfo)

-- A path that the map has, with an answer.
unfoldable pub known : Str → Infos → Option PathInfo
known p infos = elim (Map.get p infos) [ some (some i) ↦ some i | _ ↦ none ]

-- Nix is not asked about no paths at all.
unfoldable pub ask : NixSource → List Str → Result Error Infos
ask nix [] = ok []
ask nix (p ∷ ps) = nix.path_info (p ∷ ps)

unfoldable pub output_paths : List BuildResult → List Str
output_paths [] = []
output_paths (b ∷ bs) = Map.values b.outputs ++ output_paths bs

module _ (k : Crates) where
  -- The loop over the references of the output `p`; one that is not a store path is left out.
  unfoldable pub add_references : Str → Str → List Str → Fragment → Fragment
  add_references p on [] f = f
  add_references p on (r ∷ refs) f =
      let skip = add_references p on refs f in
      let edge : Fragment = elim (store_path_hash r) [
        | none ↦ skip
        | some rh ↦ add_references p on refs (add_node on (nix (codes "references")) (out rh) f)
      ] in
      if str_eq r p then skip else edge

  unfoldable pub add_info : Str → Str → Option PathInfo → Fragment → Fragment
  add_info p on none f = f
  add_info p on (some info) f = elim info.nar_hash [
    | none ↦ add_references p on info.references f
    | some nh ↦ add_references p on info.references (add_text k on (codes "narHash") nh f)
  ]

  unfoldable pub add_built : Str → Infos → List (Str × Str) → Fragment → Result Error Fragment
  add_built s infos [] f = ok f
  add_built s infos ((name, p) ∷ outs) f = hash_of p >>= λ oh.
      add_built s infos outs (add_info p (out oh) (known p infos) (add_output k s oh name p f))

  unfoldable pub outputs_fragment : Str → List (Str × Str) → Infos → Result Error Fragment
  outputs_fragment drv_path outputs infos =
      hash_of drv_path >>= λ h. add_built (drv h) infos outputs (new (FragmentKind.out h))

  unfoldable pub outputs_fragments : Infos → List BuildResult → Result Error (List Fragment)
  outputs_fragments infos [] = ok []
  outputs_fragments infos (b ∷ bs) = do
    f ← outputs_fragment b.drv_path b.outputs infos
    fs ← outputs_fragments infos bs
    ok (f ∷ fs)

  unfoldable pub extract_outputs : NixSource → List BuildResult → Result Error (List Fragment)
  extract_outputs nix built =
      ask nix (output_paths built) >>= λ infos. outputs_fragments infos built
