-- ===== src/Tests/DrvFile.antt =====
-- A derivation that is printed and read back.
use nix2rdf.Base.{
  ◌≡◌, refl, none, some, [], ◌∷◌, Str, codes, strip_prefix, str_eq, split_once, rsplit_once,
}
use nix2rdf.Base.Order.{str_cmp}
use nix2rdf.Base.Trim.{trim_end_matches}
use nix2rdf.Base.Utf8.{is_utf8}
use nix2rdf.DrvFile.Derivation.{parse_drv, drv_name}
use nix2rdf.DrvFile.Derivation.RoundTrip.{
  output_term, join_algo, output_terms, input_terms, env_terms, strs, print_drv, drv_terms,
  IsPrintable, IsAlgo, parse_drv-print_drv,
}
use nix2rdf.DrvFile.Parser.{ok}
use nix2rdf.Hash.Json
use nix2rdf.Iri.StorePath.{store_path_name, base_name}
use nix2rdf.Nix.Model.{DrvInfo, InputDrv, outputs_of}

abbrev path_x : Str
path_x = codes "/nix/store/dddddddddddddddddddddddddddddddd-x.drv"

abbrev info_x : DrvInfo
info_x = record {
  name = codes "x";
  system = codes "x86_64-linux";
  builder = codes "/bin/sh";
  args = codes "-c" ∷ codes "echo \"hi\\n\"\n" ∷ [];
  env = (codes "name", codes "x") ∷ (codes "out", codes "/o") ∷ [];
  input_drvs =
      (codes "/nix/store/b-y.drv", InputDrv.structured (codes "out" ∷ []) (Json.object Json.end))
      ∷ [];
  input_srcs = codes "/nix/store/c-s" ∷ [];
  outputs =
      (
        codes "out",
        record {
          path = none;
          hash_algo = some (codes "sha256");
          method = some (codes "nar");
          hash = none;
        },
      )
      ∷ [];
}

info_x-IsPrintable : IsPrintable path_x info_x
unfolding drv_name output_term join_algo str_eq output_terms input_terms env_terms strs
    store_path_name base_name trim_end_matches strip_prefix split_once rsplit_once str_cmp
    outputs_of drv_terms is_utf8
info_x-IsPrintable = record {
  name = refl;
  outputs = (tt, tt);
  input_drvs = (tt, tt);
  env = ((refl, tt), (tt, tt));
  each_output = (record { path = cc; hash = cc; algo = IsAlgo.nar (codes "sha256") }, tt);
  each_input = (refl, tt);
  text = (
    ((refl, (refl, (refl, (refl, tt)))), tt),
    (
      ((refl, ((refl, tt), tt)), tt),
      (
        (refl, tt),
        (refl, (refl, ((refl, (refl, tt)), (((refl, (refl, tt)), ((refl, (refl, tt)), tt)), tt)))),
      ),
    ),
  );
}

parse_drv-print_drv_example : parse_drv path_x (print_drv info_x) ≡ ok info_x
parse_drv-print_drv_example = parse_drv-print_drv path_x info_x info_x-IsPrintable
