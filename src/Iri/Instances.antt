-- ===== src/Iri/Instances.antt =====
-- The functions that name instances. An IRI is its text; what `NamedNode::new` checks of it is
-- outside the model.
use nix2rdf.Base.{ℕ, ◌∷◌, ◌++◌, Str, codes}
use nix2rdf.Base.Decimal.{format}
use nix2rdf.Iri.Base64.{Base64}
use nix2rdf.Iri.Segment.{encode_segment, nar_hash_segment}

abbrev pub slash : ℕ
slash = b'/'

unfoldable pub id_base : Str
id_base = codes "https://w3id.org/nix2rdf/id/"

unfoldable pub policy_base : Str
policy_base = codes "https://w3id.org/nix2rdf/policy/"

unfoldable pub id : Str → Str
id path = id_base ++ path

unfoldable pub drv : Str → Str
unfolding id
drv store_hash = id (codes "drv/" ++ store_hash)

unfoldable pub out : Str → Str
unfolding id
out store_hash = id (codes "out/" ++ store_hash)

module _ (c : Base64) where
  unfoldable pub src : Str → Str
  unfolding id
  src nar_hash = id (codes "src/" ++ nar_hash_segment c nar_hash)

  unfoldable pub pin : Str → Str
  unfolding id
  pin nar_hash = id (codes "pin/" ++ nar_hash_segment c nar_hash)

  unfoldable pub flake_input : Str → Str → Str → Str
  unfolding id
  flake_input root_nar parent input =
      let rest = codes "/input/" ++ (encode_segment parent ++ (slash ∷ encode_segment input)) in
      id (codes "pin/" ++ (nar_hash_segment c root_nar ++ rest))

  unfoldable pub pin_attr : Str → Str → Str
  unfolding id
  pin_attr root_nar attr =
      id (codes "pin/" ++ (nar_hash_segment c root_nar ++ (codes "/attr/" ++ encode_segment attr)))

  unfoldable pub nixos_configuration : Str → Str → Str
  unfolding id
  nixos_configuration nar name =
      let rest = codes "/nixosConfigurations/" ++ encode_segment name in
      id (codes "pin/" ++ (nar_hash_segment c nar ++ rest))

unfoldable pub nixpkgs : Str → Str
unfolding id
nixpkgs rev = id (codes "nixpkgs/" ++ rev)

unfoldable pub nixpkgs_attr : Str → Str → Str
unfolding id
nixpkgs_attr rev attr = id (codes "nixpkgs/" ++ (rev ++ (codes "/attr/" ++ encode_segment attr)))

unfoldable pub package_version : Str → Str → Str
unfolding id
package_version attr version =
    id (codes "pkgver/" ++ (encode_segment attr ++ (slash ∷ encode_segment version)))

unfoldable pub release : Str → Str
unfolding id
release name = id (codes "release/" ++ encode_segment name)

unfoldable pub commit : Str → Str → Str
unfolding id
commit repo sha = id (codes "git/" ++ (encode_segment repo ++ (slash ∷ sha)))

unfoldable pub gen : Str → Str
unfolding id
gen system_hash = id (codes "gen/" ++ system_hash)

unfoldable pub option : Str → Str
unfolding id
option path = id (codes "option/" ++ encode_segment path)

unfoldable pub option_value : Str → Str → Str
unfolding id
option_value gen_hash path =
    id (codes "gen/" ++ (gen_hash ++ (codes "/opt/" ++ encode_segment path)))

unfoldable pub option_definition : Str → Str → ℕ → Str
unfolding id
option_definition gen_hash path index =
    let rest = codes "/opt/" ++ (encode_segment path ++ (codes "/def/" ++ format index)) in
    id (codes "gen/" ++ (gen_hash ++ rest))

unfoldable pub value : Str → Str
unfolding id
value hash = id (codes "value/" ++ hash)

unfoldable pub image : Str → Str
unfolding id
image sha256_hex = id (codes "oci/sha256/" ++ sha256_hex)

unfoldable pub layer : Str → Str
unfolding id
layer sha256_hex = id (codes "oci/layer/sha256/" ++ sha256_hex)

unfoldable pub pack : Str → Str
unfolding id
pack content_hash = id (codes "pack/" ++ content_hash)

unfoldable pub derived : Str → Str → Str
unfolding id
derived ruleset_hash input_hash = id (codes "derived/" ++ (ruleset_hash ++ (b':' ∷ input_hash)))

unfoldable pub fragment : Str → Str → Str
unfolding id
fragment kind ident = id (codes "fragment/" ++ (kind ++ (slash ∷ ident)))

unfoldable pub policy : Str → Str → Str
policy pack name = policy_base ++ (pack ++ (slash ∷ name))
