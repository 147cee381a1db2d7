-- ===== src/Nix/Meta.antt =====
-- `Meta` of crates/nix2rdf-core/src/nix/model.rs: what is recorded of the meta attributes.
use nix2rdf.Base.{
  Bool, false, ◌||◌, not, Option, none, some, List, [], ◌∷◌, ◌++◌, Str, codes, ◌>>=◌,
}
use nix2rdf.Base.Order.{str_ord}
use nix2rdf.Base.Sort
use nix2rdf.Base.Dedup
use nix2rdf.Base.Set
use nix2rdf.Hash.Json
use nix2rdf.Hash.Json.{Json, Items, Fields, null, boolean, number, string, array, object, nil, cons}

pub record Meta : Type 0 where
  pub licenses : List Str
  pub unfree : Bool
  pub homepage : Option Str
  pub description : Option Str
  pub source_provenance : List Str

unfoldable pub as_str : Json → Option Str
as_str (string s) = some s
as_str _ = none

-- `get(key).and_then(as_str)`
unfoldable pub text_of : Str → Fields → Option Str
text_of k fs = Json.get k fs >>= as_str

unfoldable pub is_false : Json → Bool
is_false (boolean b) = not b
is_false _ = false

unfoldable pub not_free : Fields → Bool
not_free fs = elim (Json.get (codes "free") fs) [ none ↦ false | some v ↦ is_false v ]

unfoldable pub license_name : Fields → List Str
license_name fs = elim (text_of (codes "spdxId") fs) [
  | some id ↦ id ∷ []
  | none ↦ elim (text_of (codes "shortName") fs) [
    | some sn ↦ sn ∷ []
    | none ↦ elim (text_of (codes "fullName") fs) [ some full ↦ full ∷ [] | none ↦ [] ]
  ]
]

-- The licenses so far, and whether one of them is not free.
unfoldable mutual
  pub one : Json → List Str × Bool → List Str × Bool
  one (string s) (out, unfree) = (out ++ s ∷ [], unfree)
  one (object fs) (out, unfree) = (out ++ license_name fs, unfree || not_free fs)
  one (array xs) st = each xs st
  one null st = st
  one (boolean b) st = st
  one (number n) st = st

  pub each : Items → List Str × Bool → List Str × Bool
  each nil st = st
  each (cons v xs) st = each xs (one v st)

unfoldable pub home : Json → Option Str
home (string s) = some s
home (array (cons v xs)) = as_str v
home _ = none

unfoldable pub short_names : Items → List Str
short_names nil = []
short_names (cons v xs) = elim v [
  | object fs ↦ elim (text_of (codes "shortName") fs) [
    | some s ↦ s ∷ short_names xs
    | none ↦ short_names xs
  ]
  | _ ↦ short_names xs
]

unfoldable pub provenance : Option Json → List Str
provenance none = []
provenance (some v) = elim v [ array xs ↦ Sort.sort (short_names xs) | _ ↦ [] ]

unfoldable pub license_state : Option Json → List Str × Bool
license_state none = ([], false)
license_state (some l) = one l ([], false)

unfoldable pub from_json : Json → Meta
from_json (object obj) = record {
  licenses = Dedup.dedup (Sort.sort (license_state (Json.get (codes "license") obj)).0);
  unfree = (license_state (Json.get (codes "license") obj)).1;
  homepage = Json.get (codes "homepage") obj >>= home;
  description = text_of (codes "description") obj;
  source_provenance = provenance (Json.get (codes "sourceProvenance") obj);
}
from_json _ = record {
  licenses = [];
  unfree = false;
  homepage = none;
  description = none;
  source_provenance = [];
}
