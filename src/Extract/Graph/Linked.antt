-- ===== src/Extract/Graph/Linked.antt =====
-- `read_closure` of nix/drv_file.rs followed by `extract_from_drvs` of extract/drv.rs.
use nix2rdf.Base.{◌≡◌, inl, inr, true, some, List, Str, codes, Option-cases}
use nix2rdf.Base.Map
use nix2rdf.Base.Order.{str_ord}
use nix2rdf.Crates.{Crates}
use nix2rdf.DrvFile.Parser
use nix2rdf.Fragment.Lines.{Fragment}
use nix2rdf.Vocab.{nix}

abbrev pub depends_on : Str
depends_on = nix (codes "dependsOn")

pub some_of_contains :
    {V : Type 0} (p : Str) (m : List (Str × V))
    → Map.contains_key p m ≡ true
    → (v : V) × (Map.get p m ≡ some v)
some_of_contains p m h = elim (Option-cases (Map.get p m)) [
  | inl missing ↦ absurd (cc)
  | inr found ↦ found
]
