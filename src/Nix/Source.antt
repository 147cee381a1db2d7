-- ===== src/Nix/Source.antt =====
-- The trait `NixSource` of crates/nix2rdf-core/src/nix/mod.rs: what the extractors ask Nix. An
-- answer depends on the question only.
use nix2rdf.Base.{Bool, Option, List, Str}
use nix2rdf.Base.Result.{Result}
use nix2rdf.Hash.Json.{Json}
use nix2rdf.Nix.Model.{DrvInfo, PathInfo}

-- The errors of the extractors, named for their messages; `nix_failed` is one of Nix itself.
pub data Error : Type 0 where
  not_a_store_path : Str → Error
  no_nar_hash : Str → Str → Error
  missing_nar_hashes : List Str → Error
  nix_failed no_field : Str → Error

pub record EvalArgs : Type 0 where
  pub installable : Option Str
  pub expr : Option Str
  pub apply : Option Str
  pub impure : Bool
  pub label : Str

pub record BuildResult : Type 0 where
  pub drv_path : Str
  pub outputs : List (Str × Str)

pub record NixSource : Type 0 where
  pub derivation_show : List Str → Bool → Result Error (List (Str × DrvInfo))
  pub path_info : List Str → Result Error (List (Str × Option PathInfo))
  pub flake_metadata : Str → Result Error Json
  pub eval_json : EvalArgs → Result Error Json
  pub flake_show : Str → Result Error Json
  pub build_json : Str → Result Error (List BuildResult)
