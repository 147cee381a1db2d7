-- ===== src/Extract/Image.antt =====
-- crates/nix2rdf-core/src/extract/image.rs: an OCI image with its layers. Files are read by a
-- parameter.
pub mod Archive
use nix2rdf.Base.{
  ℕ, suc, Bool, false, ◌&&◌, Option, none, some, List, [], ◌∷◌, ◌++◌, Str, codes, str_eq, length,
  drop, ltb, ◌==◌, if◌then◌else◌, unwrap_or, strip_prefix, split_once, rsplit_once, ◌>>=◌ as ◌>>=?◌,
  not, is_some,
}
use nix2rdf.Base.Decimal.{format}
use nix2rdf.Base.Map
use nix2rdf.Base.Order.{str_ord}
use nix2rdf.Base.Result.{Result, ok, err, ◌>>=◌, ok_or}
use nix2rdf.Base.Set
use nix2rdf.Base.Steps.{for_each, if_some, if_true, ◌▷◌}
use nix2rdf.Crates.{Crates}
use nix2rdf.Extract.Graph.{EnvMode, extract_graph}
use nix2rdf.Extract.Runtime.{Fault, failed, out_of_fuel, lift, extract_runtime_closure}
use nix2rdf.Fragment.Build.{add_node, add_type, add_str}
use nix2rdf.Fragment.Kind.{FragmentKind}
use nix2rdf.Fragment.Lines.{Fragment, new}
use nix2rdf.Hash.Items.{sha256_hex}
use nix2rdf.Hash.Json
use nix2rdf.Hash.Json.{Json, canonical_json}
use nix2rdf.Iri.Instances.{drv, out, image, layer}
use nix2rdf.Iri.StorePath.{store_path_hash}
use nix2rdf.Kubernetes.Objects.{field, as_str, arr}
use nix2rdf.Nix.Source.{Error, no_field, NixSource, BuildResult}
use nix2rdf.Vocab.{nix}

pub record LayerDesc : Type 0 where
  pub digest_hex : Str
  pub media_type : Option Str
  pub size : Option ℕ
  pub store_paths : List Str

pub record ImageDesc : Type 0 where
  pub tool : Str
  pub config_digest_hex : Option Str
  pub repo_tags : List Str
  pub layers : List LayerDesc

pub record ImageOptions : Type 0 where
  pub flake_ref : Str
  pub attr : Str
  pub digest : Option Str
  pub extract : EnvMode

-- `strip_prefix(p).unwrap_or(s)`
unfoldable pub without : Str → Str → Str
without p s = unwrap_or s (strip_prefix p s)

-- `split('/').next()`
unfoldable pub first_component : Str → Str
first_component s = elim (split_once b'/' s) [ none ↦ s | some (a, rest) ↦ a ]

unfoldable pub has_dash_at : ℕ → Str → Bool
has_dash_at n s = elim (drop n s) [ [] ↦ false | b ∷ rest ↦ b == b'-' ]

unfoldable pub store_path_of_entry : Str → Option Str
store_path_of_entry p =
    strip_prefix (codes "nix/store/") (without (codes "/") (without (codes "./") p)) >>=? λ rest.
    let comp = first_component rest in
    if ltb 33 (length comp) && has_dash_at 32 comp then some (codes "/nix/store/" ++ comp) else none

unfoldable pub entry_path : Json → Str
entry_path p = elim (field (codes "path") p >>=? as_str) [
  | some x ↦ x
  | none ↦ unwrap_or [] (as_str p)
]

unfoldable pub layer_paths : List Json → List Str → List Str
layer_paths [] paths = paths
layer_paths (p ∷ ps) paths =
    layer_paths ps
      (if is_some (store_path_hash (entry_path p)) then Set.insert (entry_path p) paths else paths)

unfoldable pub as_u64 : Json → Option ℕ
as_u64 (Json.number n) = elim n [ Json.Number.pos_int m ↦ some m | _ ↦ none ]
as_u64 _ = none

unfoldable pub describe_layer : Json → LayerDesc
describe_layer l = record {
  digest_hex = without (codes "sha256:") (unwrap_or [] (field (codes "digest") l >>=? as_str));
  media_type = field (codes "mediatype") l >>=? as_str;
  size = field (codes "size") l >>=? as_u64;
  store_paths = layer_paths (arr l (codes "paths" ∷ [])) [];
}

-- A layer stands in the description, or in a file of its own that it names.
unfoldable pub read_layers : (Str → Result Error Json) → List Json → Result Error (List LayerDesc)
read_layers read [] = ok []
read_layers read (l ∷ ls) = do
  v ← elim (as_str l) [ none ↦ ok l | some p ↦ read p ]
  rest ← read_layers read ls
  ok (describe_layer v ∷ rest)

-- The name and the tag of `name:tag`; the tag is `latest` where there is none.
unfoldable pub split_repo_tag : Str → Str × Str
split_repo_tag tag = elim (rsplit_once b':' tag) [ none ↦ (tag, codes "latest") | some p ↦ p ]

module _ (k : Crates) where
  unfoldable pub read_nix2container : (Str → Result Error Json) → Str → Result Error ImageDesc
  read_nix2container read path = do
    v ← read path
    layers ← read_layers read (arr v (codes "layers" ∷ []))
    ok (record {
      tool = codes "nix2container";
      config_digest_hex = some (sha256_hex k.digest (canonical_json k.json_to_string v));
      repo_tags = [];
      layers = layers;
    })

  unfoldable pub digest_text : Str → Str
  digest_text hex = codes "sha256:" ++ hex

  unfoldable pub add_tag : Str → Str → Fragment → Fragment
  add_tag img tag f =
      let (name, tg) = split_repo_tag tag in
      f
      ▷ add_str k.quote img (nix (codes "imageName")) name
      ▷ add_str k.quote img (nix (codes "imageTag")) tg

  unfoldable pub add_content : Str → Str → Fragment → Fragment
  add_content ln p =
      if_some
        (λ h f.
          f
          ▷ add_node ln (nix (codes "layerContains")) (out h)
          ▷ add_type (out h) (nix (codes "Output"))
          ▷ add_str k.quote (out h) (nix (codes "storePath")) p)
        (store_path_hash p)

  unfoldable pub add_layer : Str → ℕ → LayerDesc → Fragment → Fragment
  add_layer img i l f =
      let ln = layer l.digest_hex in
      f
      ▷ add_node img (nix (codes "hasLayer")) ln
      ▷ add_str k.quote img (nix (codes "layerIndex"))
          (format i ++ (b':' ∷ digest_text l.digest_hex))
      ▷ add_type ln (nix (codes "Layer"))
      ▷ add_str k.quote ln (nix (codes "digest")) (digest_text l.digest_hex)
      ▷ if_some (add_str k.quote ln (nix (codes "mediaType"))) l.media_type
      ▷ for_each (add_content ln) l.store_paths

  unfoldable pub add_layers : Str → ℕ → List LayerDesc → Fragment → Fragment
  add_layers img i [] f = f
  add_layers img i (l ∷ ls) f = add_layers img (suc i) ls (add_layer img i l f)

  unfoldable pub add_config : Str → Str → Str → Fragment → Fragment
  add_config img image_id_hex c =
      if_true (not (str_eq c image_id_hex))
        (add_str k.quote img (nix (codes "digest")) (digest_text c))

  unfoldable pub image_fragment : Str → ImageDesc → Str → List Str → Option Str → Fragment
  image_fragment image_id_hex desc image_drv closure registry_digest =
      let img = image image_id_hex in
      new (FragmentKind.image image_id_hex)
      ▷ add_type img (nix (codes "Image"))
      ▷ add_type img (nix (codes "Snapshot"))
      ▷ add_str k.quote img (nix (codes "digest")) (digest_text image_id_hex)
      ▷ if_some (add_config img image_id_hex) desc.config_digest_hex
      ▷ if_some (add_str k.quote img (nix (codes "digest"))) registry_digest
      ▷ add_str k.quote img (nix (codes "imageTool")) desc.tool
      ▷ for_each (add_tag img) desc.repo_tags
      ▷ add_node img (nix (codes "imageDerivation")) image_drv
      ▷ add_node img (nix (codes "hasRoot")) image_drv
      ▷ for_each (λ h. add_node img (nix (codes "closureContains")) (drv h)) closure
      ▷ add_layers img 0 desc.layers

-- `built.first()` and its output `out`, or else its first output.
unfoldable pub first_built : List BuildResult → Result Error BuildResult
first_built [] = err (no_field (codes "built"))
first_built (b ∷ bs) = ok b

unfoldable pub built_output : BuildResult → Result Error Str
built_output b = elim (Map.get (codes "out") b.outputs) [
  | some p ↦ ok p
  | none ↦ elim b.outputs [ [] ↦ err (no_field (codes "output")) | (n, p) ∷ rest ↦ ok p ]
]

unfoldable pub image_id : ImageOptions → ImageDesc → Result Error Str
image_id opts desc = elim opts.digest [
  | some d ↦ ok (without (codes "sha256:") d)
  | none ↦ ok_or (no_field (codes "digest")) desc.config_digest_hex
]

unfoldable pub all_layer_paths : List LayerDesc → List Str
all_layer_paths [] = []
all_layer_paths (l ∷ ls) = l.store_paths ++ all_layer_paths ls

module _ (k : Crates) (source : NixSource) where
  -- The runtime references of the layers; a failure of Nix leaves them out.
  unfoldable pub runtime_fragments : ℕ → List Str → Result Fault (List Fragment)
  runtime_fragments fuel [] = ok []
  runtime_fragments fuel (p ∷ paths) = elim (extract_runtime_closure k source fuel (p ∷ paths)) [
    | ok r ↦ ok r.0
    | err e ↦ elim e [ failed x ↦ ok [] | out_of_fuel ↦ err out_of_fuel ]
  ]

  unfoldable pub extract_image :
      (Str → Result Error ImageDesc) → ℕ → ImageOptions → Result Fault (List Fragment × Str)
  extract_image read_image_artifact fuel opts =
      let installable = opts.flake_ref ++ (b'#' ∷ opts.attr) in
      do
        built ← lift (source.build_json installable)
        b ← lift (first_built built)
        artifact ← lift (built_output b)
        desc ← lift (read_image_artifact artifact)
        graph ← lift (extract_graph k source (installable ∷ []) opts.extract)
        h ← lift (ok_or (no_field (codes "image")) (Map.get b.drv_path graph.drv_hashes))
        id ← lift (image_id opts desc)
        outs ← runtime_fragments fuel (all_layer_paths desc.layers)
        ok (
          graph.fragments
              ++ (image_fragment k id desc (drv h) (Map.values graph.drv_hashes) opts.digest
                  ∷ outs),
          image id,
        )
