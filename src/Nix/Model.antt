-- ===== src/Nix/Model.antt =====
-- `DrvInfo`, `InputDrv`, `OutputInfo` and `PathInfo`, and the methods of `DrvInfo`. A `BTreeMap` is
-- an association list whose keys increase. Parsing the JSON text of `__json` is a parameter.
use nix2rdf.Base.{
  Bool, true, false, ◌||◌, Option, none, some, List, [], ◌∷◌, Str, codes, str_eq, is_none, ◌>>=◌,
}
use nix2rdf.Base.Map
use nix2rdf.Base.Order.{str_ord}
use nix2rdf.Hash.Json
use nix2rdf.Hash.Json.{Json, Fields}

pub data InputDrv : Type 0 where
  structured : List Str → Json → InputDrv
  list : List Str → InputDrv

unfoldable pub outputs_of : InputDrv → List Str
outputs_of (structured outputs dynamic) = outputs
outputs_of (list outputs) = outputs

pub record OutputInfo : Type 0 where
  pub path : Option Str
  pub hash_algo : Option Str
  pub method : Option Str
  pub hash : Option Str

pub record DrvInfo : Type 0 where
  pub name : Str
  pub system : Str
  pub builder : Str
  pub args : List Str
  pub env : List (Str × Str)
  pub input_drvs : List (Str × InputDrv)
  pub input_srcs : List Str
  pub outputs : List (Str × OutputInfo)

pub record PathInfo : Type 0 where
  pub nar_hash : Option Str
  pub references : List Str
  pub deriver : Option Str

lacks_path : List (Str × OutputInfo) → Bool
lacks_path [] = false
lacks_path ((name, o) ∷ rest) = is_none o.path || lacks_path rest

unfoldable pub is_content_addressed : DrvInfo → Bool
unfolding lacks_path
is_content_addressed d = lacks_path d.outputs

unfoldable pub uses_structured_attrs : DrvInfo → Bool
uses_structured_attrs d =
    elim (Map.get (codes "__structuredAttrs") d.env) [
      | none ↦ false
      | some v ↦ str_eq v (codes "1") || str_eq v (codes "true")
    ]
    || Map.contains_key (codes "__json") d.env

as_object : Json → Option Fields
as_object (Json.object fs) = some fs
as_object _ = none

-- A string, a Boolean or a number as text; `print_number` is the crate's.
scalar : (Json.Number → Str) → Json → Option Str
scalar print_number (Json.string s) = some s
scalar print_number (Json.boolean true) = some (codes "true")
scalar print_number (Json.boolean false) = some (codes "false")
scalar print_number (Json.number n) = some (print_number n)
scalar print_number _ = none

module _ (from_str : Str → Option Json) (print_number : Json.Number → Str) where
  unfoldable pub structured_attrs : DrvInfo → Option Fields
  unfolding as_object
  structured_attrs d = do j ← Map.get (codes "__json") d.env; v ← from_str j; as_object v

  unfoldable pub attr : Str → DrvInfo → Option Str
  unfolding scalar
  attr key d = elim (Map.get key d.env) [
    | some v ↦ some v
    | none ↦ structured_attrs d >>= λ sa. Json.get key sa >>= λ v. scalar print_number v
  ]
