-- ===== src/Tests/Extract.antt =====
-- The extraction of a derivation with an input and a source.
use nix2rdf.Base.{
  ◌≡◌, refl, some, List, [], ◌∷◌, Str, codes, str_eq, rsplit_once, split_once, strip_prefix,
}
use nix2rdf.Base.Map
use nix2rdf.DrvFile.Parser
use nix2rdf.Base.Set
use nix2rdf.Hash.Json
use mathlib.Core.List.{Memᴰ}
use nix2rdf.Fragment.Lines.{Fragment}
use nix2rdf.Base.Set.{member}
use nix2rdf.Hash.Items.{le_bytes, frame, frames, short, sha256_hex, sha256_hex_items}
use nix2rdf.Hash.Json.{Json, insert_field, canonical_json}
use nix2rdf.Iri.Segment.{is_safe, hex_upper, encode_byte, encode_segment, nar_hash_segment}
use nix2rdf.Iri.StorePath.{is_alphanumeric, base_name, is_hash, store_path_hash, store_path_name}
use nix2rdf.Iri.Instances.{id_base, id, drv, src, out}
use nix2rdf.Fragment.Lines.{new, triple, add, show_iri}
use nix2rdf.Fragment.Build.{
  show_int, show_bool, add_node, add_type, show_typed, add_str, add_typed, add_int, add_bool,
}
use nix2rdf.Extract.Outputs.{known, ask}
use nix2rdf.Base.Order.{str_ord, str_cmp}
use nix2rdf.Base.Result.{ok, IsOk}
use nix2rdf.DrvFile.Closure.{Drvs}
use nix2rdf.Extract.Derivation.{
  derivation_fragment, hash_of, env_json, add_args, add_known, env_hash, describe,
  add_input_outputs, add_input, add_input_drvs, add_input_srcs, add_output, add_outputs, add_env,
  env_fragment, source_fragment,
}
use nix2rdf.Extract.Graph.{
  hash_only, full, extract_from_drvs, all_srcs, src_list, nar_of, split_known, none_missing,
  source_hashes, source_fragments, fragments_of, add_drvs,
}
use nix2rdf.Extract.Graph.Agreement.{extract_from_drvs-agree}
use nix2rdf.Nix.Model.{
  DrvInfo, InputDrv, outputs_of, is_content_addressed, uses_structured_attrs, structured_attrs,
  attr,
}
use nix2rdf.Tests.Sample.{answer, crates, top, dep, source, store, nix, nix-IsStore}

abbrev info : Str → List (Str × InputDrv) → List Str → DrvInfo
info name inputs srcs = record {
  name = name;
  system = codes "s";
  builder = codes "x";
  args = [];
  env = [];
  input_drvs = inputs;
  input_srcs = srcs;
  outputs = [];
}

abbrev top_info : DrvInfo
top_info =
    info (codes "a") ((dep, InputDrv.structured [] (Json.object Json.end)) ∷ []) (source ∷ [])

abbrev dep_info : DrvInfo
dep_info = info (codes "b") [] []

abbrev both : Drvs
both = (top, top_info) ∷ (dep, dep_info) ∷ []

abbrev one : Drvs
one = (top, top_info) ∷ []

abbrev hashes : List (Str × Str)
hashes = (source, codes "sha256-AA==") ∷ []

both-extracted : IsOk (extract_from_drvs crates nix both full)
unfolding all_srcs src_list nar_of split_known none_missing source_hashes source_fragments
    fragments_of add_drvs extract_from_drvs hash_of env_json add_args add_known env_hash describe
    add_input_outputs add_input add_input_drvs add_input_srcs add_output add_outputs
    derivation_fragment add_env env_fragment source_fragment known ask show_int show_bool add_node
    add_type show_typed add_str add_typed add_int add_bool new triple add show_iri id_base id drv
    src out is_alphanumeric base_name is_hash store_path_hash store_path_name is_safe hex_upper
    encode_byte encode_segment nar_hash_segment insert_field canonical_json le_bytes frame frames
    short sha256_hex sha256_hex_items outputs_of is_content_addressed uses_structured_attrs
    structured_attrs attr str_cmp str_eq rsplit_once split_once strip_prefix member Map.get
    Map.insert Map.keys Set.insert Set.extend answer
both-extracted = (_, refl)

one-extracted : IsOk (extract_from_drvs crates nix one hash_only)
unfolding all_srcs src_list nar_of split_known none_missing source_hashes source_fragments
    fragments_of add_drvs extract_from_drvs hash_of env_json add_args add_known env_hash describe
    add_input_outputs add_input add_input_drvs add_input_srcs add_output add_outputs
    derivation_fragment add_env env_fragment source_fragment known ask show_int show_bool add_node
    add_type show_typed add_str add_typed add_int add_bool new triple add show_iri id_base id drv
    src out is_alphanumeric base_name is_hash store_path_hash store_path_name is_safe hex_upper
    encode_byte encode_segment nar_hash_segment insert_field canonical_json le_bytes frame frames
    short sha256_hex sha256_hex_items outputs_of is_content_addressed uses_structured_attrs
    structured_attrs attr str_cmp str_eq rsplit_once split_once strip_prefix member Map.get
    Map.insert Map.keys Set.insert Set.extend answer
one-extracted = (_, refl)

both-top : Map.get top both ≡ some top_info
unfolding Map.get str_cmp
both-top = refl

one-top : Map.get top one ≡ some top_info
unfolding Map.get str_cmp
one-top = refl

extract_from_drvs-agree_example :
    (f : Fragment) × (derivation_fragment crates top top_info both-extracted.0.src_hashes ≡ ok f)
    × Memᴰ f both-extracted.0.fragments
    × Memᴰ f one-extracted.0.fragments
extract_from_drvs-agree_example =
    extract_from_drvs-agree crates nix store nix-IsStore both one full hash_only both-extracted.0
      one-extracted.0 both-extracted.1 one-extracted.1 top top_info both-top one-top

abbrev files : List (Str × Str)
files =
    (
      top,
      codes
          "Derive([],[(\"/nix/store/bbbbbbbbbbbbbbbbbbbbbbbbbbbbbbbb-b.drv\",[])],[\"/nix/store/cccccccccccccccccccccccccccccccc-c\"],\"s\",\"x\",[],[])",
    )
    ∷ (dep, codes "Derive([],[],[],\"s\",\"x\",[],[])")
    ∷ []
