-- ===== src/Tests/Image.antt =====
-- The reading of an image's archive.
use nix2rdf.Base.{◌≡◌, refl, none, some, [], ◌∷◌, codes, str_eq, strip_prefix, split_once}
use nix2rdf.Base.Map
use nix2rdf.Base.Order.{str_cmp}
use nix2rdf.Base.Paths.{ends_with}
use nix2rdf.Base.Result.{ok}
use nix2rdf.Base.Set
use nix2rdf.Extract.Image.{without, store_path_of_entry, first_component, has_dash_at}
use nix2rdf.Extract.Image.Archive.{
  Entry, read_docker_archive, read_entries, read_entry, read_layer, is_config, is_layer,
  entry_store_paths, describe_archive, first_manifest, listed_layers, config_digest, strip_suffix,
}
use nix2rdf.Hash.Items.{sha256_hex}
use nix2rdf.Hash.Json
use nix2rdf.Hash.Json.{Json}
use nix2rdf.Kubernetes.Objects
use nix2rdf.Tests.Sample.{crates, source}

-- A layer with a store path.
abbrev layer : Entry
layer = record {
  name = codes "./l.tar";
  content = codes "x";
  size = some 1;
  inner = ok (codes "./nix/store/cccccccccccccccccccccccccccccccc-c/bin" ∷ codes "etc" ∷ []);
}

abbrev manifest : Entry
manifest = record { name = codes "manifest.json"; content = codes "m"; size = none; inner = ok [] }

abbrev listing : Json
listing = Json.array (
    Json.cons
      (Json.object (
        Json.field (codes "Layers") (Json.array (Json.cons (Json.string (codes "l.tar")) Json.nil))
          Json.end))
      Json.nil)

archive-read :
    read_docker_archive crates (λ s. ok listing) (layer ∷ manifest ∷ [])
    ≡ ok (record {
      tool = codes "dockerTools";
      config_digest_hex = none;
      repo_tags = [];
      layers =
          record {
            digest_hex = codes "x";
            media_type = some (codes "application/vnd.oci.image.layer.v1.tar");
            size = some 1;
            store_paths = source ∷ [];
          }
          ∷ [];
    })
unfolding read_docker_archive read_entries read_entry read_layer is_config is_layer
    entry_store_paths str_eq without strip_prefix ends_with describe_archive config_digest
    Objects.strings listed_layers Objects.field Objects.arr first_manifest Objects.walk
    Objects.elements Json.get Map.get Map.insert str_cmp Objects.as_str sha256_hex
    store_path_of_entry first_component split_once Set.insert strip_suffix has_dash_at
archive-read = refl
