-- ===== src/Extract/Nixos.antt =====
-- crates/nix2rdf-core/src/extract/nixos.rs: a NixOS generation with its options. Reading the
-- records out of the JSON value, which serde does, is a parameter, and so is the text of the walker.
use nix2rdf.Base.{
  ℕ, suc, Bool, true, false, Option, none, some, List, [], ◌∷◌, ◌++◌, Str, codes, length, leb,
  if◌then◌else◌, unwrap_or, ◌>>=◌ as ◌>>=?◌,
}
use nix2rdf.Base.Map
use nix2rdf.Base.Order.{str_ord}
use nix2rdf.Base.Result.{Result, ok, err, ◌>>=◌, ok_or}
use nix2rdf.Base.Steps.{for_each, if_some, ◌▷◌}
use nix2rdf.Crates.{Crates}
use nix2rdf.DrvFile.Closure.{Drvs}
use nix2rdf.Extract.Graph.{EnvMode, GraphExtraction, extract_graph}
use nix2rdf.Extract.Image.{runtime_fragments}
use nix2rdf.Extract.Runtime.{Fault, lift}
use nix2rdf.Fragment.Build.{add_node, add_type, add_str, add_bool}
use nix2rdf.Fragment.Kind.{FragmentKind}
use nix2rdf.Fragment.Lines.{Fragment, new}
use nix2rdf.Hash.Items.{sha256_hex}
use nix2rdf.Hash.Json.{Json, canonical_json}
use nix2rdf.Iri.Instances.{
  drv, pin, gen, nixos_configuration, option, option_value, option_definition, value,
}
use nix2rdf.Iri.Segment.{encode_segment}
use nix2rdf.Iri.StorePath.{store_path_hash}
use nix2rdf.Kubernetes.Objects.{s}
use nix2rdf.Nix.Model.{DrvInfo}
use nix2rdf.Nix.Source.{Error, EvalArgs, no_field, NixSource}
use nix2rdf.Vocab.{nix}

pub record NixosOptions : Type 0 where
  pub flake_ref : Str
  pub name : Str
  pub all_options : Bool
  pub with_runtime_closure : Bool
  pub extract : EnvMode

pub record DefRecord : Type 0 where
  pub file : Str
  pub value : Option Json

pub record OptRecord : Type 0 where
  pub path : Str
  pub ty : Option Str
  pub declarations : List Str
  pub is_defined : Bool
  pub value : Option Json
  pub definitions : List DefRecord

-- The fragment of the generation and the fragments of large values.
abbrev pub Sides : Type 0
Sides = Fragment × List Fragment

-- A step that changes the first fragment only.
unfoldable pub on_first : (Fragment → Fragment) → Sides → Sides
on_first step (f, side) = (step f, side)

module _ (k : Crates) where
  -- A value of at most 1024 bytes stands in the fragment; a larger one in a fragment of its own.
  unfoldable pub value_literal : Str → Str → Json → Sides → Sides
  value_literal subject prop v (f, side) =
      let json = canonical_json k.json_to_string v in
      let h = sha256_hex k.digest json in
      let vf = add_str k.quote (value h) (nix (codes "value")) json (new (FragmentKind.value h)) in
      if leb (length json) 1024
      then (add_str k.quote subject prop json f, side)
      else (add_str k.quote subject (nix (codes "valueHash")) h f, side ++ vf ∷ [])

  unfoldable pub add_definition : Str → Str → Str → ℕ → DefRecord → Sides → Sides
  add_definition gen_hash path ov i d st =
      let dn = option_definition gen_hash path i in
      st
      ▷ on_first (add_type dn (nix (codes "OptionDefinition")))
      ▷ on_first (add_node ov (nix (codes "hasDefinition")) dn)
      ▷ on_first (add_str k.quote dn (nix (codes "definedIn")) d.file)
      ▷ if_some (value_literal dn (nix (codes "definitionValue"))) d.value

  unfoldable pub add_definitions : Str → Str → Str → ℕ → List DefRecord → Sides → Sides
  add_definitions gen_hash path ov i [] st = st
  add_definitions gen_hash path ov i (d ∷ ds) st =
      add_definitions gen_hash path ov (suc i) ds (add_definition gen_hash path ov i d st)

  unfoldable pub add_option : Str → OptRecord → Sides → Sides
  add_option gen_hash r st =
      let opt = option r.path in
      let ov = option_value gen_hash r.path in
      st
      ▷ on_first (add_type opt (nix (codes "NixosOption")))
      ▷ on_first (add_str k.quote opt (nix (codes "optionPath")) r.path)
      ▷ on_first (if_some (add_str k.quote opt (nix (codes "optionType"))) r.ty)
      ▷ on_first (for_each (add_str k.quote opt (nix (codes "declaredIn"))) r.declarations)
      ▷ on_first (add_type ov (nix (codes "OptionValue")))
      ▷ on_first (add_node ov (nix (codes "option")) opt)
      ▷ on_first (add_node (gen gen_hash) (nix (codes "hasOptionValue")) ov)
      ▷ on_first (add_bool k.quote ov (nix (codes "isDefined")) r.is_defined)
      ▷ if_some (value_literal ov (nix (codes "finalValue"))) r.value
      ▷ add_definitions gen_hash r.path ov 0 r.definitions

-- The path of the output `out`, where it is known.
unfoldable pub out_path : DrvInfo → Option Str
out_path top = Map.get (codes "out") top.outputs >>=? λ o. o.path

-- A generation is named by the hash of its output, or else by that of its derivation.
unfoldable pub generation_hash : DrvInfo → Str → Str
generation_hash top drv_hash = unwrap_or drv_hash (out_path top >>=? store_path_hash)

unfoldable pub first_root : Drvs → Result Error (Str × DrvInfo)
first_root [] = err (no_field (codes "toplevel"))
first_root ((p, d) ∷ drvs) = ok (p, d)

module _ (k : Crates) (source : NixSource) where
  unfoldable pub generation_fragment : Str → Str → Str → Str → DrvInfo → GraphExtraction → Fragment
  generation_fragment name root_nar gen_hash top_hash top graph =
      let g = gen gen_hash in
      let cfg = nixos_configuration k.base64 root_nar name in
      new (FragmentKind.gen gen_hash)
      ▷ add_type g (nix (codes "NixosGeneration"))
      ▷ add_type g (nix (codes "Snapshot"))
      ▷ add_node g (nix (codes "hasRoot")) (drv top_hash)
      ▷ add_node g (nix (codes "fromPin")) (pin k.base64 root_nar)
      ▷ if_some (add_str k.quote g (nix (codes "storePath"))) (out_path top)
      ▷ add_type cfg (nix (codes "NixosConfiguration"))
      ▷ add_str k.quote cfg (nix (codes "name")) name
      ▷ add_node cfg (nix (codes "fromPin")) (pin k.base64 root_nar)
      ▷ add_node g (nix (codes "configuration")) cfg
      ▷ for_each (λ h. add_node g (nix (codes "closureContains")) (drv h))
          (Map.values graph.drv_hashes)

  unfoldable pub option_args : (Bool → Str) → NixosOptions → EvalArgs
  option_args option_walker opts = record {
    installable =
        some (opts.flake_ref ++ (codes "#nixosConfigurations." ++ (opts.name ++ codes ".options")));
    expr = none;
    apply = some (option_walker opts.all_options);
    impure = false;
    label = codes "options/" ++ encode_segment opts.name;
  }

  -- The options are left out where they cannot be evaluated; records that are not read are an error.
  unfoldable pub add_options :
      (Json → Result Error (List OptRecord)) → Str → Result Error Json → Sides → Result Error Sides
  add_options from_value gen_hash (err e) st = ok st
  add_options from_value gen_hash (ok v) st =
      from_value v >>= λ records. ok (for_each (add_option k gen_hash) records st)

  unfoldable pub runtime_of : ℕ → Bool → Option Str → Result Fault (List Fragment)
  runtime_of fuel true (some p) = runtime_fragments k source fuel (p ∷ [])
  runtime_of fuel _ _ = ok []

  unfoldable pub extract_nixos :
      (Bool → Str)
      → (Json → Result Error (List OptRecord))
      → ℕ
      → NixosOptions
      → Result Fault (List Fragment)
  extract_nixos option_walker from_value fuel opts =
      let toplevel =
        opts.flake_ref
        ++ (codes "#nixosConfigurations."
            ++ (opts.name ++ codes ".config.system.build.toplevel")) in
      do
        meta ← lift (source.flake_metadata opts.flake_ref)
        root_nar ← lift (
            ok_or (no_field (codes "locked.narHash"))
              (s meta (codes "locked" ∷ codes "narHash" ∷ [])))
        graph ← lift (extract_graph k source (toplevel ∷ []) opts.extract)
        roots ← lift (source.derivation_show (toplevel ∷ []) false)
        (top_path, top) ← lift (first_root roots)
        top_hash ← lift (ok_or (no_field (codes "toplevel")) (Map.get top_path graph.drv_hashes))
        let gen_hash = generation_hash top top_hash in
            let start = generation_fragment opts.name root_nar gen_hash top_hash top graph in
            do
              (f, side) ← lift (
                  add_options from_value gen_hash
                    (source.eval_json (option_args option_walker opts)) (start, []))
              outs ← runtime_of fuel opts.with_runtime_closure (out_path top)
              ok (graph.fragments ++ (side ++ (outs ++ f ∷ [])))
