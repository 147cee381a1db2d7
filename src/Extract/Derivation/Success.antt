-- ===== src/Extract/Derivation/Success.antt =====
-- The errors of `derivation_fragment` in extract/drv.rs.
use nix2rdf.Base.{◌≡◌, refl, some, List, Str}
use nix2rdf.Base.Map
use nix2rdf.Base.Order.{str_ord}
use nix2rdf.Base.Result.{some_of_ok_or, ok}
use nix2rdf.Crates.{Crates}
use nix2rdf.Extract.Derivation.{not_a_store_path, hash_of}
use nix2rdf.Fragment.Lines.{Fragment}
use nix2rdf.Iri.StorePath.{store_path_hash}
use nix2rdf.Nix.Model.{OutputInfo}

-- The path is a store path.
abbrev pub IsHashed : Str → Type 0
IsHashed p = (h : Str) × (store_path_hash p ≡ some h)

-- The source has a NAR hash.
abbrev pub IsKnown : List (Str × Str) → Str → Type 0
IsKnown hashes p = (nar : Str) × (Map.get p hashes ≡ some nar)

-- An output whose path is known has a store path.
abbrev pub IsPlaced : Str × OutputInfo → Type 0
IsPlaced (name, o) = (p : Str) → o.path ≡ some p → IsHashed p

pub hash_of-some : (p h : Str) → store_path_hash p ≡ some h → hash_of p ≡ ok h
unfolding hash_of
hash_of-some p h e = rw e refl

pub IsHashed-hash_of : (p h : Str) → hash_of p ≡ ok h → store_path_hash p ≡ some h
unfolding hash_of
IsHashed-hash_of p h e = some_of_ok_or (not_a_store_path p) (store_path_hash p) h e
