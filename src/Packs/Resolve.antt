-- ===== src/Packs/Resolve.antt =====
-- `resolve`: the selected packs and their dependencies in load order. The recursion of `visit` is
-- bounded by fuel.
use nix2rdf.Base.{ℕ, zero, suc, none, some, List, [], ◌∷◌, ◌++◌, Str, if◌then◌else◌, length}
use nix2rdf.Base.Map
use nix2rdf.Base.Order.{str_ord}
use nix2rdf.Base.Set
use nix2rdf.Base.Sort
use nix2rdf.Packs.Model.{Pack}

pub data Error : Type 0 where
  cycle unknown : Str → Error

pub data Result {ℓ} (A : Type ℓ) : Type ℓ where
  ok : A → Result A
  err : Error → Result A
  out_of_fuel : Result A

infixl 5 ◌>>=◌
abbrev pub ◌>>=◌ {ℓ κ} : {A : Type ℓ} {B : Type κ} → Result A → (A → Result B) → Result B
Result.ok a >>= f = f a
Result.err e >>= f = Result.err e
Result.out_of_fuel >>= f = Result.out_of_fuel

-- The sets and the list that `visit` updates.
pub record State : Type 0 where
  pub done : List Str
  pub visiting : List Str
  pub order : List Pack

abbrev pub enter : Str → State → State
enter name s = record { done = s.done; visiting = Set.insert name s.visiting; order = s.order }

abbrev pub leave : Str → Pack → State → State
leave name p s = record {
  done = Set.insert name s.done;
  visiting = Set.remove name s.visiting;
  order = s.order ++ p ∷ [];
}

-- The loop over names, with the call that it makes for each.
unfoldable pub visit_all : (Str → State → Result State) → List Str → State → Result State
visit_all call [] s = Result.ok s
visit_all call (d ∷ ds) s = call d s >>= λ t. visit_all call ds t

module _ (packs : List (Str × Pack)) where
  unfoldable pub visit : ℕ → Str → State → Result State
  visit zero name s = Result.out_of_fuel
  visit (suc f) name s =
      let call = visit f in
      if Set.member name s.done
      then Result.ok s
      else if Set.member name s.visiting
      then Result.err (Error.cycle name)
      else elim (Map.get name packs) [
        | none ↦ Result.err (Error.unknown name)
        | some p ↦ visit_all call (Sort.sort p.manifest.depends_on) (enter name s) >>= λ t.
            Result.ok (leave name p t)
      ]

  -- One call more than there are packs is enough.
  unfoldable pub resolve : List Str → Result (List Pack)
  resolve selected =
      visit_all (visit (suc (length packs))) (Sort.sort selected)
        (record { done = []; visiting = []; order = [] })
      >>= λ s. Result.ok s.order
