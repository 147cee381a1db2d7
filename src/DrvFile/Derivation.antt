-- ===== src/DrvFile/Derivation.antt =====
-- `parse_drv` of crates/nix2rdf-core/src/nix/drv_file.rs.
pub mod RoundTrip
pub mod Total
use nix2rdf.Base.{
  ℕ, zero, suc, ◌+◌, ◌*◌, ◌≡◌, refl, Bool, true, false, Option, none, some, List, [], ◌∷◌, ◌++◌,
  Str, codes, ◌==◌, if◌then◌else◌, length, split_once, strip_prefix, str_eq, unwrap_or, is_some,
}
use nix2rdf.Base.Map
use nix2rdf.Base.Order.{str_ord}
use nix2rdf.Base.Trim.{trim_end, trim_end_matches}
use nix2rdf.DrvFile.Parser.{
  Term, Terms, str, list, tuple, nil, cons, Result, ok, err, panicked, ◌>>=◌, term, expected_string,
  expected_list, not_derive, malformed, field_count,
}
use nix2rdf.Hash.Json
use nix2rdf.Iri.StorePath.{store_path_name}
use nix2rdf.Nix.Model.{DrvInfo, InputDrv, OutputInfo}

unfoldable pub as_str : Term → Result Str
as_str (str s) = ok s
as_str _ = err expected_string

unfoldable pub as_list : Term → Result Terms
as_list (list ts) = ok ts
as_list (tuple ts) = ok ts
as_list (str s) = err expected_list

-- `&t[i]`
unfoldable pub index : ℕ → Terms → Result Term
index i nil = panicked
index zero (cons t ts) = ok t
index (suc i) (cons t ts) = index i ts

unfoldable pub count : Terms → ℕ
count nil = 0
count (cons t ts) = suc (count ts)

abbrev pub some_unless_empty : Str → Option Str
some_unless_empty [] = none
some_unless_empty (c ∷ s) = some (c ∷ s)

-- The method and the algorithm.
unfoldable pub split_algo : Str → Option Str × Option Str
split_algo [] = (none, none)
split_algo (c ∷ a) = elim (split_once b':' (c ∷ a)) [
  | none ↦ (some (codes "flat"), some (c ∷ a))
  | some (m, algo) ↦ (some (if str_eq m (codes "r") then codes "nar" else m), some algo)
]

unfoldable pub parse_output : Term → Result (Str × OutputInfo)
parse_output o = do
  t ← as_list o
  name ← index 0 t >>= as_str
  path ← index 1 t >>= as_str
  algo ← index 2 t >>= as_str
  hash ← index 3 t >>= as_str
  ok (
    name,
    record {
      path = some_unless_empty path;
      hash_algo = (split_algo algo).1;
      method = (split_algo algo).0;
      hash = some_unless_empty hash;
    },
  )

unfoldable pub parse_outputs : Terms → List (Str × OutputInfo) → Result (List (Str × OutputInfo))
parse_outputs nil outputs = ok outputs
parse_outputs (cons o os) outputs =
    parse_output o >>= λ (name, info). parse_outputs os (Map.insert name info outputs)

unfoldable pub parse_strs : Terms → Result (List Str)
parse_strs nil = ok []
parse_strs (cons t ts) = do s ← as_str t; rest ← parse_strs ts; ok (s ∷ rest)

unfoldable pub parse_input : Term → Result (Str × InputDrv)
parse_input i = do
  t ← as_list i
  path ← index 0 t >>= as_str
  outs ← index 1 t >>= as_list >>= parse_strs
  ok (path, InputDrv.structured outs (Json.object Json.end))

unfoldable pub parse_inputs : Terms → List (Str × InputDrv) → Result (List (Str × InputDrv))
parse_inputs nil inputs = ok inputs
parse_inputs (cons i is) inputs =
    parse_input i >>= λ (path, drv). parse_inputs is (Map.insert path drv inputs)

-- The arguments of `insert` are read in order: the key, then the value.
unfoldable pub parse_pair : Term → Result (Str × Str)
parse_pair e = do t ← as_list e; k ← index 0 t >>= as_str; v ← index 1 t >>= as_str; ok (k, v)

unfoldable pub parse_env : Terms → List (Str × Str) → Result (List (Str × Str))
parse_env nil env = ok env
parse_env (cons e es) env = parse_pair e >>= λ (k, v). parse_env es (Map.insert k v env)

unfoldable pub drv_name : Str → Str
drv_name drv_path = trim_end_matches (codes ".drv") (unwrap_or [] (store_path_name drv_path))

unfoldable pub parse_fields : Str → Terms → Result DrvInfo
parse_fields drv_path fields = do
  outputs ← index 0 fields >>= as_list >>= λ ts. parse_outputs ts []
  input_drvs ← index 1 fields >>= as_list >>= λ ts. parse_inputs ts []
  input_srcs ← index 2 fields >>= as_list >>= parse_strs
  system ← index 3 fields >>= as_str
  builder ← index 4 fields >>= as_str
  args ← index 5 fields >>= as_list >>= parse_strs
  env ← index 6 fields >>= as_list >>= λ ts. parse_env ts []
  ok (record {
    name = drv_name drv_path;
    system = system;
    builder = builder;
    args = args;
    env = env;
    input_drvs = input_drvs;
    input_srcs = input_srcs;
    outputs = outputs;
  })

unfoldable pub derive_fields : Term → Result Terms
derive_fields (tuple ts) = if count ts == 7 then ok ts else err (field_count (count ts))
derive_fields _ = err malformed

unfoldable pub parse_drv : Str → Str → Result DrvInfo
parse_drv drv_path text =
    let s = trim_end text in
    elim (strip_prefix (codes "Derive(") s) [
      | none ↦ err not_derive
      | some rest ↦ term (3 * length (b'(' ∷ rest) + 1) (b'(' ∷ rest) >>= λ (t, _).
          derive_fields t >>= λ fields. parse_fields drv_path fields
    ]
