-- ===== src/Extract/Graph.antt =====
-- `extract_from_drvs` and `extract_graph` of crates/nix2rdf-core/src/extract/drv.rs: the fragments
-- of a graph of derivations and of the sources that they use.
pub mod Sources
pub mod Agreement
pub mod Linked
use nix2rdf.Base.{true, Option, none, some, List, [], ◌∷◌, ◌++◌, Str, ◌>>=◌ as ◌>>=?◌}
use nix2rdf.Base.Map
use nix2rdf.Base.Order.{str_ord}
use nix2rdf.Base.Result.{Result, ok, err, ◌>>=◌}
use nix2rdf.Base.Set
use nix2rdf.Crates.{Crates}
use nix2rdf.DrvFile.Closure.{Drvs}
use nix2rdf.Extract.Derivation.{hash_of, derivation_fragment, env_fragment, source_fragment}
use nix2rdf.Extract.Outputs.{Infos, known, ask}
use nix2rdf.Fragment.Lines.{Fragment}
use nix2rdf.Nix.Model.{DrvInfo}
use nix2rdf.Nix.Source.{Error, missing_nar_hashes, NixSource}

pub data EnvMode : Type 0 where
  hash_only full : EnvMode

pub record GraphExtraction : Type 0 where
  pub drv_hashes : List (Str × Str)
  pub src_hashes : List (Str × Str)
  pub fragments : List Fragment
  pub drvs : Drvs

-- The sources of all derivations, as the loop over them yields them.
unfoldable pub all_srcs : Drvs → List Str
all_srcs [] = []
all_srcs ((path, d) ∷ drvs) = d.input_srcs ++ all_srcs drvs

unfoldable pub src_list : Drvs → List Str
src_list drvs = Set.extend (all_srcs drvs) []

unfoldable pub nar_of : Infos → Str → Option Str
nar_of infos p = known p infos >>=? λ i. i.nar_hash

-- The hashes that are known, and the paths without one.
unfoldable pub split_known :
    Infos → List Str → List (Str × Str) → List Str → List (Str × Str) × List Str
split_known infos [] hashes missing = (hashes, missing)
split_known infos (p ∷ ps) hashes missing = elim (nar_of infos p) [
  | some nar ↦ split_known infos ps (Map.insert p nar hashes) missing
  | none ↦ split_known infos ps hashes (missing ++ p ∷ [])
]

unfoldable pub none_missing : List (Str × Str) × List Str → Result Error (List (Str × Str))
none_missing (hashes, []) = ok hashes
none_missing (hashes, p ∷ missing) = err (missing_nar_hashes (p ∷ missing))

-- The NAR hash of every source of the derivations.
unfoldable pub source_hashes : NixSource → Drvs → Result Error (List (Str × Str))
source_hashes nix drvs =
    ask nix (src_list drvs) >>= λ infos. none_missing (split_known infos (src_list drvs) [] [])

module _ (k : Crates) where
  unfoldable pub source_fragments : List (Str × Str) → List Fragment
  source_fragments [] = []
  source_fragments ((path, nar) ∷ hashes) = source_fragment k path nar ∷ source_fragments hashes

  -- The fragments of one derivation.
  unfoldable pub fragments_of :
      EnvMode → List (Str × Str) → Str → DrvInfo → Result Error (List Fragment)
  fragments_of hash_only src_hashes path d =
      derivation_fragment k path d src_hashes >>= λ f. ok (f ∷ [])
  fragments_of full src_hashes path d = do
    f ← derivation_fragment k path d src_hashes
    e ← env_fragment k path d
    ok (f ∷ e ∷ [])

  unfoldable pub add_drvs :
      EnvMode → List (Str × Str) → Drvs → GraphExtraction → Result Error GraphExtraction
  add_drvs env src_hashes [] ex = ok ex
  add_drvs env src_hashes ((path, d) ∷ drvs) ex = do
    h ← hash_of path
    fs ← fragments_of env src_hashes path d
    add_drvs env src_hashes drvs
        (record ex { drv_hashes = Map.insert path h ex.drv_hashes; fragments = ex.fragments ++ fs })

  unfoldable pub extract_from_drvs : NixSource → Drvs → EnvMode → Result Error GraphExtraction
  extract_from_drvs nix drvs env = do
    src_hashes ← source_hashes nix drvs
    ex ← add_drvs env src_hashes drvs (record {
      drv_hashes = [];
      src_hashes = [];
      fragments = source_fragments src_hashes;
      drvs = [];
    })
    ok (record ex { src_hashes = src_hashes; drvs = drvs })

  unfoldable pub extract_graph : NixSource → List Str → EnvMode → Result Error GraphExtraction
  extract_graph nix installables env =
      nix.derivation_show installables true >>= λ drvs. extract_from_drvs nix drvs env
