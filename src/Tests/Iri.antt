-- ===== src/Tests/Iri.antt =====
-- Segments and store paths.
use nix2rdf.Base.{◌≡◌, ◌↔◌, refl, true, some, ◌∷◌, ◌++◌, Str, codes, split_once, rsplit_once}
use nix2rdf.Iri.Instances
use nix2rdf.Iri.Segment.{encode_segment, encode_byte}
use nix2rdf.Iri.StorePath.{store_path_hash, base_name, is_hash, store_path_hash_iff}

spaced : encode_segment (codes "a/b c") ≡ codes "a%2Fb%20c"
unfolding encode_segment encode_byte
spaced = refl

kept : encode_segment (codes "python3Packages.requests") ≡ codes "python3Packages.requests"
unfolding encode_segment encode_byte
kept = refl

layer_iri : Instances.layer (codes "ab") ≡ codes "https://w3id.org/nix2rdf/id/oci/layer/sha256/ab"
unfolding Instances.layer Instances.id_base
layer_iri = refl

abbrev hello_hash : Str
hello_hash = codes "7rnrwhl2b91gb9b7na73q6c4cvvv1hi8"

hello :
    store_path_hash (codes "/nix/store/7rnrwhl2b91gb9b7na73q6c4cvvv1hi8-hello-2.12.3.drv")
    ≡ some hello_hash
unfolding store_path_hash base_name is_hash split_once rsplit_once
hello = refl

store_path_hash_iff_example :
    (store_path_hash (codes "/nix/store/short-x") ≡ some (codes "short")) ↔ (
      (is_hash (codes "short") ≡ true)
      × (name : Str) × (base_name (codes "/nix/store/short-x") ≡ codes "short" ++ b'-' ∷ name))
store_path_hash_iff_example = store_path_hash_iff (codes "/nix/store/short-x") (codes "short")
