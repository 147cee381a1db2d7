-- ===== src/Extract/Image/Archive.antt =====
-- `read_docker_archive` and `read_image_artifact` of crates/nix2rdf-core/src/extract/image.rs. The
-- tar crate reads an archive: its entries are a list, each with its content and, where that is an
-- archive itself, the paths of its entries.
use nix2rdf.Base.{
  false, Bool, ◌&&◌, ◌||◌, not, Option, none, some, List, [], ◌∷◌, Str, codes, str_eq, length, ◌==◌,
  if◌then◌else◌, unwrap_or, is_none, strip_prefix, split_once, rsplit_once, ℕ, ◌>>=◌ as ◌>>=?◌,
}
use mathlib.Core.List.{reverse}
use nix2rdf.Base.Map
use nix2rdf.Base.Order.{str_ord}
use nix2rdf.Base.Paths.{ends_with, components}
use nix2rdf.Base.Result.{Result, ok, err, ◌>>=◌, ok_or}
use nix2rdf.Base.Set
use nix2rdf.Crates.{Crates}
use nix2rdf.Extract.Image.{LayerDesc, ImageDesc, without, store_path_of_entry, read_nix2container}
use nix2rdf.Hash.Items.{sha256_hex}
use nix2rdf.Hash.Json.{Json}
use nix2rdf.Kubernetes.Objects.{field, as_str, arr, strings}
use nix2rdf.Nix.Source.{Error, no_field}

pub record Entry : Type 0 where
  pub name : Str
  pub content : Str
  pub size : Option ℕ
  -- what the tar crate reads of the content
  pub inner : Result Error (List Str)

-- What is known of an archive when some of its entries are read.
pub record Scan : Type 0 where
  pub manifest : Option Json
  pub config_name : Option Str
  pub layers_by_name : List (Str × LayerDesc)
  pub config_digest_from_content : Option Str

abbrev pub unread : Scan
unread = record {
  manifest = none;
  config_name = none;
  layers_by_name = [];
  config_digest_from_content = none;
}

-- A file of JSON that stands at the top of the archive.
unfoldable pub is_config : Str → Bool
is_config name =
    ends_with (codes ".json") name
    && (is_none (split_once b'/' name) && not (str_eq name (codes "repositories")))

unfoldable pub is_layer : Str → Bool
is_layer name = ends_with (codes "layer.tar") name || ends_with (codes ".tar") name

unfoldable pub entry_store_paths : List Str → List Str → List Str
entry_store_paths [] paths = paths
entry_store_paths (p ∷ ps) paths = elim (store_path_of_entry p) [
  | none ↦ entry_store_paths ps paths
  | some sp ↦ entry_store_paths ps (Set.insert sp paths)
]

unfoldable pub strip_suffix : Str → Str → Option Str
strip_suffix suffix s = strip_prefix (reverse suffix) (reverse s) >>=? λ r. some (reverse r)

-- The configuration's name without `.json`, if it is a digest, or the digest of its text.
unfoldable pub config_digest : Option Str → Option Str → Option Str
config_digest cfg of_content = elim (cfg >>=? strip_suffix (codes ".json")) [
  | some h ↦ if length h == 64 then some h else of_content
  | none ↦ of_content
]

-- The layers that the manifest lists, in its order; one that is not in the archive is left out.
unfoldable pub listed_layers : List (Str × LayerDesc) → List Json → List LayerDesc
listed_layers by_name [] = []
listed_layers by_name (l ∷ ls) = elim (Map.get (unwrap_or [] (as_str l)) by_name) [
  | none ↦ listed_layers by_name ls
  | some d ↦ d ∷ listed_layers by_name ls
]

-- `manifest.get(0).unwrap_or(manifest)`
unfoldable pub first_manifest : Json → Json
first_manifest manifest = elim (arr manifest []) [ [] ↦ manifest | m ∷ ms ↦ m ]

unfoldable pub describe_archive : Scan → Json → ImageDesc
describe_archive scan m0 =
    let named : Option Str = field (codes "Config") m0 >>=? as_str in
    record {
      tool = codes "dockerTools";
      config_digest_hex =
          config_digest (elim named [ none ↦ scan.config_name | some c ↦ some c ])
            scan.config_digest_from_content;
      repo_tags = strings (arr m0 (codes "RepoTags" ∷ []));
      layers = listed_layers scan.layers_by_name (arr m0 (codes "Layers" ∷ []));
    }

-- `Path::extension` of a file's name
unfoldable pub extension : Str → Option Str
extension s = elim (rsplit_once b'.' s) [
  | none ↦ none
  | some ([], ext) ↦ none
  | some (c ∷ stem, ext) ↦ some ext
]

unfoldable pub is_json_path : List Str → Bool
is_json_path [] = false
is_json_path (x ∷ []) = elim (extension x) [ none ↦ false | some e ↦ str_eq e (codes "json") ]
is_json_path (x ∷ y ∷ p) = is_json_path (y ∷ p)

unfoldable pub is_object_text : Str → Bool
is_object_text [] = false
is_object_text (b ∷ s) = b == b'{'

module _ (k : Crates) (from_slice : Str → Result Error Json) where
  unfoldable pub read_layer : Entry → Str → Scan → Result Error Scan
  read_layer e name scan = do
    paths ← e.inner
    ok (record scan {
      layers_by_name =
          Map.insert name
            (record {
              digest_hex = sha256_hex k.digest e.content;
              media_type = some (codes "application/vnd.oci.image.layer.v1.tar");
              size = e.size;
              store_paths = entry_store_paths paths [];
            })
            scan.layers_by_name;
    })

  unfoldable pub read_entry : Entry → Scan → Result Error Scan
  read_entry e scan =
      let name = without (codes "./") e.name in
      if str_eq name (codes "manifest.json")
      then (from_slice e.content >>= λ m. ok (record scan { manifest = some m }))
      else if is_config name
      then ok (record scan {
        config_name = some name;
        config_digest_from_content = some (sha256_hex k.digest e.content);
      })
      else if is_layer name
      then read_layer e name scan
      else ok scan

  -- The loop over the entries.
  unfoldable pub read_entries : List Entry → Scan → Result Error Scan
  read_entries [] scan = ok scan
  read_entries (e ∷ entries) scan = read_entry e scan >>= read_entries entries

  unfoldable pub read_docker_archive : List Entry → Result Error ImageDesc
  read_docker_archive entries = do
    scan ← read_entries entries unread
    manifest ← ok_or (no_field (codes "manifest.json")) scan.manifest
    ok (describe_archive scan (first_manifest manifest))

  module _ (is_dir : Str → Bool) (read_file : Str → Result Error Str)
      (archive_entries : Str → Result Error (List Entry)) where
    unfoldable pub read_image_artifact : Str → Result Error ImageDesc
    read_image_artifact path =
        (if is_dir path then err (no_field path) else read_file path) >>= λ content.
        if is_object_text content || is_json_path (components path)
        then read_nix2container k (λ p. read_file p >>= from_slice) path
        else (archive_entries path >>= read_docker_archive)
