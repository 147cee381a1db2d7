-- ===== src/Tests/Closure.antt =====
-- The closure of two derivations, of which one is an input of the other.
use nix2rdf.Base.{
  ◌≡◌, ◌≢◌, refl, List, [], ◌∷◌, Str, codes, strip_prefix, str_eq, split_once, rsplit_once,
}
use nix2rdf.Base.Map
use nix2rdf.Base.Order.{str_cmp}
use nix2rdf.Base.Trim.{trim_end, trim_end_matches}
use nix2rdf.Base.Utf8.{is_utf8}
use nix2rdf.DrvFile.Closed.{IsClosure}
use nix2rdf.DrvFile.Closure.{Drvs, read_drv_file, push_missing, close}
use nix2rdf.DrvFile.Derivation.{
  parse_drv, derive_fields, parse_fields, parse_outputs, parse_input, parse_inputs, parse_strs,
  parse_env, drv_name, index, count, as_list, as_str,
}
use nix2rdf.DrvFile.Parser.{
  ok, out_of_fuel, term, seq, items, next, string, string_body, unescape, expect,
}
use nix2rdf.DrvFile.Termination.{
  read_closure, read_closure-ne-out_of_fuel, read_closure-IsClosure, unread, weight,
}
use nix2rdf.Hash.Json
use nix2rdf.Iri.StorePath.{store_path_name, base_name}
use nix2rdf.Nix.Model.{DrvInfo, InputDrv}

abbrev files : List (Str × Str)
files =
    (codes "a", codes "Derive([],[(\"b\",[])],[],\"s\",\"x\",[],[])")
    ∷ (codes "b", codes "Derive([],[],[],\"s\",\"x\",[],[])")
    ∷ []

abbrev info : List (Str × InputDrv) → DrvInfo
info inputs = record {
  name = [];
  system = codes "s";
  builder = codes "x";
  args = [];
  env = [];
  input_drvs = inputs;
  input_srcs = [];
  outputs = [];
}

abbrev both : Drvs
both =
    (codes "a", info ((codes "b", InputDrv.structured [] (Json.object Json.end)) ∷ []))
    ∷ (codes "b", info [])
    ∷ []

both-read : read_closure files (codes "a" ∷ []) ≡ ok both
unfolding read_closure close push_missing unread weight read_drv_file parse_drv derive_fields
    parse_fields parse_outputs parse_input parse_inputs parse_strs parse_env drv_name index count
    as_list as_str term seq items next string string_body unescape expect trim_end trim_end_matches
    strip_prefix str_eq split_once rsplit_once str_cmp Map.get Map.insert Map.keys store_path_name
    base_name is_utf8
both-read = refl

read_closure-ne-out_of_fuel_example : read_closure files (codes "a" ∷ []) ≢ out_of_fuel
read_closure-ne-out_of_fuel_example = read_closure-ne-out_of_fuel files (codes "a" ∷ [])

read_closure-IsClosure_example : IsClosure (read_drv_file files) (codes "a" ∷ []) both
read_closure-IsClosure_example = read_closure-IsClosure files (codes "a" ∷ []) both both-read
