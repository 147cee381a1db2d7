-- ===== src/Extract/Runtime.antt =====
-- `extract_runtime_closure` of crates/nix2rdf-core/src/extract/drv.rs: the store paths that some
-- roots refer to at run time, and the fragments of their derivations.
pub mod Round
pub mod Frontier
pub mod Reach
pub mod Total
use nix2rdf.Base.{
  ◌++◌, ℕ, zero, suc, Bool, false, ◌||◌, not, none, some, List, [], ◌∷◌, Str, codes, str_eq,
  if◌then◌else◌, ◌&&◌,
}
use nix2rdf.Base.Dedup
use nix2rdf.Base.Map
use nix2rdf.Base.Order.{str_ord}
use nix2rdf.Base.Result.{Result, ok, err, ◌>>=◌}
use nix2rdf.Base.Sort
use nix2rdf.Crates.{Crates}
use nix2rdf.Extract.Outputs.{Infos, outputs_fragment}
use nix2rdf.Fragment.Lines.{Fragment}
use nix2rdf.Iri.StorePath.{store_path_name}
use nix2rdf.Nix.Model.{OutputInfo, PathInfo}
use nix2rdf.Nix.Source.{Error, NixSource}

-- `out_of_fuel` has no counterpart in the program.
pub data Fault : Type 0 where
  failed : Error → Fault
  out_of_fuel : Fault

unfoldable pub lift : {A : Type 0} → Result Error A → Result Fault A
lift (ok a) = ok a
lift (err e) = err (failed e)

abbrev pub Seen : Type 0
Seen = List (Str × PathInfo)

-- The loop over the references of `p`.
unfoldable pub push_refs : Seen → Str → List Str → List Str → List Str
push_refs seen p [] frontier = frontier
push_refs seen p (r ∷ refs) frontier =
    let skip = push_refs seen p refs frontier in
    let push = push_refs seen p refs (frontier ++ r ∷ []) in
    if not (Map.contains_key r seen) && not (str_eq r p) then push else skip

-- The loop over what was answered.
unfoldable pub take_infos : Infos → Seen → List Str → Seen × List Str
take_infos [] seen frontier = (seen, frontier)
take_infos ((p, none) ∷ infos) seen frontier = take_infos infos seen frontier
take_infos ((p, some i) ∷ infos) seen frontier =
    take_infos infos (Map.insert p i seen) (push_refs seen p i.references frontier)

-- `retain`
unfoldable pub unseen : Seen → List Str → List Str
unseen seen [] = []
unseen seen (p ∷ ps) =
    let rest = unseen seen ps in if Map.contains_key p seen then rest else p ∷ rest

unfoldable pub next_frontier : Seen × List Str → List Str
next_frontier (seen, frontier) = unseen seen (Dedup.dedup (Sort.sort frontier))

unfoldable pub walk : NixSource → ℕ → List Str → Seen → Result Fault Seen
walk nix zero frontier seen = err out_of_fuel
walk nix (suc fuel) [] seen = ok seen
walk nix (suc fuel) (p ∷ frontier) seen = do
  infos ← lift (nix.path_info (p ∷ frontier))
  let st = take_infos infos seen [] in walk nix fuel (next_frontier st) st.0

abbrev pub Groups : Type 0
Groups = List (Str × List (Str × Str))

-- `entry(d).or_default().insert(name, p)`
unfoldable pub put : Str → Str → Str → Groups → Groups
put d name p groups = elim (Map.get d groups) [
  | none ↦ Map.insert d ((name, p) ∷ []) groups
  | some outs ↦ Map.insert d (Map.insert name p outs) groups
]

unfoldable pub name_or_out : Str → Str
name_or_out p = elim (store_path_name p) [ none ↦ codes "out" | some n ↦ n ]

unfoldable pub group : Seen → Groups → Groups
group [] groups = groups
group ((p, i) ∷ seen) groups = elim i.deriver [
  | none ↦ group seen groups
  | some d ↦ group seen (put d (name_or_out p) p groups)
]

unfoldable pub answered : Seen → Infos
answered [] = []
answered ((p, i) ∷ seen) = (p, some i) ∷ answered seen

unfoldable pub has_value : Str → List (Str × Str) → Bool
has_value p [] = false
has_value p ((n, q) ∷ outs) = str_eq q p || has_value p outs

-- The outputs of a derivation that are among `outs`, under their own names.
unfoldable pub named_outputs : List (Str × Str) → List (Str × OutputInfo) → List (Str × Str)
named_outputs outs [] = []
named_outputs outs ((n, o) ∷ outputs) =
    let rest = named_outputs outs outputs in
    elim o.path [ none ↦ rest | some p ↦ if has_value p outs then Map.insert n p rest else rest ]

unfoldable pub or_else : List (Str × Str) → List (Str × Str) → List (Str × Str)
or_else [] outs = outs
or_else (o ∷ named) outs = o ∷ named

-- The names of the outputs as the derivation has them, where it is found and has one of them.
unfoldable pub name_outputs : NixSource → Str → List (Str × Str) → List (Str × Str)
name_outputs nix drv outs = elim (nix.derivation_show (drv ∷ []) false) [
  | err e ↦ outs
  | ok m ↦ elim (Map.get drv m) [
    | none ↦ outs
    | some d ↦ or_else (named_outputs outs d.outputs) outs
  ]
]

module _ (k : Crates) (nix : NixSource) where
  unfoldable pub group_fragments : Infos → Groups → Result Fault (List Fragment)
  group_fragments infos [] = ok []
  group_fragments infos ((drv, outs) ∷ groups) = do
    f ← lift (outputs_fragment k drv (name_outputs nix drv outs) infos)
    fs ← group_fragments infos groups
    ok (f ∷ fs)

  unfoldable pub extract_runtime_closure : ℕ → List Str → Result Fault (List Fragment × Seen)
  extract_runtime_closure fuel roots = do
    seen ← walk nix fuel roots []
    frags ← group_fragments (answered seen) (group seen [])
    ok (frags, seen)
