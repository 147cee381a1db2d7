-- ===== src/Extract/Derivation.antt =====
-- `derivation_fragment`, `env_fragment`, `source_fragment` and `add_meta` of
-- crates/nix2rdf-core/src/extract/drv.rs.
pub mod Success
pub mod Inputs
pub mod Edges
use nix2rdf.Base.{ℕ, suc, Bool, none, some, List, [], ◌∷◌, ◌++◌, Str, codes}
use nix2rdf.Base.Decimal.{format}
use nix2rdf.Base.Map
use nix2rdf.Base.Order.{str_ord}
use nix2rdf.Base.Result.{Result, ok, ◌>>=◌, ok_or}
use nix2rdf.Base.Steps.{◌▷◌, if_some, if_true}
use nix2rdf.Crates.{Crates}
use nix2rdf.Fragment.Build.{add_node, add_type, add_str, add_bool, add_typed}
use nix2rdf.Fragment.Kind.{FragmentKind}
use nix2rdf.Fragment.Lines.{Fragment, new}
use nix2rdf.Hash.Items.{sha256_hex}
use nix2rdf.Hash.Json
use nix2rdf.Hash.Json.{Json, Fields, canonical_json}
use nix2rdf.Iri.Instances.{drv, out, src}
use nix2rdf.Iri.StorePath.{store_path_hash, store_path_name}
use nix2rdf.Nix.Meta.{Meta}
use nix2rdf.Nix.Model.{
  DrvInfo, InputDrv, OutputInfo, outputs_of, attr, uses_structured_attrs, is_content_addressed,
}
use nix2rdf.Nix.Source.{Error, not_a_store_path, no_nar_hash}
use nix2rdf.Vocab.{nix, xsd_any_uri}

-- `store_path_hash` with the error for a path that has none.
unfoldable pub hash_of : Str → Result Error Str
hash_of path = ok_or (not_a_store_path path) (store_path_hash path)

-- `serde_json::to_value` of a map of texts.
unfoldable pub env_json : List (Str × Str) → Fields
env_json [] = Json.end
env_json ((k, v) ∷ env) = Json.field k (Json.string v) (env_json env)

module _ (k : Crates) where
  abbrev pub add_text : Str → Str → Str → Fragment → Fragment
  add_text s term v = add_str k.quote s (nix term) v

  unfoldable pub add_args : Str → ℕ → List Str → Fragment → Fragment
  add_args s i [] f = f
  add_args s i (a ∷ args) f =
      add_args s (suc i) args (add_text s (codes "arg") (format i ++ (b':' ∷ a)) f)

  -- One round of the loop over the well-known keys; the term has the name of the key.
  unfoldable pub add_known : Str → DrvInfo → Str → Fragment → Fragment
  add_known s d key = if_some (λ v. add_text s key v) (attr k.json_from_str k.print_number key d)

  unfoldable pub env_hash : DrvInfo → Str
  env_hash d = sha256_hex k.digest (canonical_json k.json_to_string (Json.object (env_json d.env)))

  -- What stands in front of the first loop that may fail.
  unfoldable pub describe : Str → Str → DrvInfo → Fragment → Fragment
  describe s drv_path d f =
      f
      ▷ add_type s (nix (codes "Derivation"))
      ▷ add_text s (codes "drvPath") drv_path
      ▷ add_text s (codes "name") d.name
      ▷ add_text s (codes "system") d.system
      ▷ add_text s (codes "builder") d.builder
      ▷ add_args s 0 d.args
      ▷ add_known s d (codes "pname")
      ▷ add_known s d (codes "version")
      ▷ add_text s (codes "envHash") (env_hash d)
      ▷ add_bool k.quote s (nix (codes "structuredAttrs")) (uses_structured_attrs d)
      ▷ add_bool k.quote s (nix (codes "contentAddressed")) (is_content_addressed d)

  unfoldable pub add_input_outputs : Str → Str → List Str → Fragment → Fragment
  add_input_outputs s ih [] f = f
  add_input_outputs s ih (o ∷ outs) f =
      add_input_outputs s ih outs (add_text s (codes "inputDrvOutput") (ih ++ (b'!' ∷ o)) f)

  -- The two edges to an input and the outputs that are used of it.
  unfoldable pub add_input : Str → Str → InputDrv → Fragment → Fragment
  add_input s ih outs f =
      f
      ▷ add_node s (nix (codes "inputDrv")) (drv ih)
      ▷ add_node s (nix (codes "dependsOn")) (drv ih)
      ▷ add_input_outputs s ih (outputs_of outs)

  unfoldable pub add_input_drvs : Str → List (Str × InputDrv) → Fragment → Result Error Fragment
  add_input_drvs s [] f = ok f
  add_input_drvs s ((in_path, outs) ∷ ins) f =
      hash_of in_path >>= λ ih. add_input_drvs s ins (add_input s ih outs f)

  unfoldable pub add_input_srcs :
      Str → Str → List (Str × Str) → List Str → Fragment → Result Error Fragment
  add_input_srcs s drv_path src_hashes [] f = ok f
  add_input_srcs s drv_path src_hashes (p ∷ srcs) f =
      ok_or (no_nar_hash p drv_path) (Map.get p src_hashes) >>= λ nar.
      add_input_srcs s drv_path src_hashes srcs
        (add_node s (nix (codes "inputSrc")) (src k.base64 nar) f)

  -- An output with its path.
  unfoldable pub add_output : Str → Str → Str → Str → Fragment → Fragment
  add_output s oh name p f =
      f
      ▷ add_node s (nix (codes "hasOutput")) (out oh)
      ▷ add_type (out oh) (nix (codes "Output"))
      ▷ add_text (out oh) (codes "outputName") name
      ▷ add_text (out oh) (codes "storePath") p

  unfoldable pub add_outputs : Str → List (Str × OutputInfo) → Fragment → Result Error Fragment
  add_outputs s [] f = ok f
  add_outputs s ((name, o) ∷ outs) f =
      let skip = add_outputs s outs f in
      elim o.path [
        | none ↦ skip
        | some p ↦ hash_of p >>= λ oh. add_outputs s outs (add_output s oh name p f)
      ]

  unfoldable pub derivation_fragment : Str → DrvInfo → List (Str × Str) → Result Error Fragment
  derivation_fragment drv_path d src_hashes = do
    h ← hash_of drv_path
    f ← add_input_drvs (drv h) d.input_drvs (describe (drv h) drv_path d (new (FragmentKind.drv h)))
    g ← add_input_srcs (drv h) drv_path src_hashes d.input_srcs f
    add_outputs (drv h) d.outputs g

  unfoldable pub add_env : Str → List (Str × Str) → Fragment → Fragment
  add_env s [] f = f
  add_env s ((key, v) ∷ env) f = add_env s env (add_text s (codes "envVar") (key ++ (b'=' ∷ v)) f)

  unfoldable pub env_fragment : Str → DrvInfo → Result Error Fragment
  env_fragment drv_path d =
      hash_of drv_path >>= λ h. ok (add_env (drv h) d.env (new (FragmentKind.env h)))

  unfoldable pub source_fragment : Str → Str → Fragment
  source_fragment store_path nar_hash =
      let s = src k.base64 nar_hash in
      let f =
        new (FragmentKind.src nar_hash)
        ▷ add_type s (nix (codes "Source"))
        ▷ add_text s (codes "narHash") nar_hash
        ▷ add_text s (codes "storePath") store_path in
      elim (store_path_name store_path) [ none ↦ f | some n ↦ add_text s (codes "name") n f ]

  unfoldable pub add_texts : Str → Str → List Str → Fragment → Fragment
  add_texts s term [] f = f
  add_texts s term (v ∷ vs) f = add_texts s term vs (add_text s term v f)

  unfoldable pub add_meta : Str → Meta → Fragment → Fragment
  add_meta s meta f =
      f
      ▷ add_texts s (codes "license") meta.licenses
      ▷ if_true meta.unfree (add_bool k.quote s (nix (codes "unfree")) Bool.true)
      ▷ if_some (λ h. add_typed k.quote s (nix (codes "homepage")) h xsd_any_uri) meta.homepage
      ▷ if_some (add_text s (codes "description")) meta.description
      ▷ add_texts s (codes "sourceProvenance") meta.source_provenance
