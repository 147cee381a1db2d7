-- ===== src/Extract/Runtime/Total.antt =====
-- The rounds of the loop of `extract_runtime_closure` in extract/drv.rs.
use nix2rdf.Base.{
  ℕ, zero, suc, ◌+◌, ◌≤◌, ◌≡◌, ◌≢◌, refl, sym, ap, ◌∙◌, inl, inr, true, false, Option, some, List,
  [], ◌∷◌, Str, arith, length, if◌then◌else◌, Bool-cases,
}
use nix2rdf.Base.Dedup
use nix2rdf.Base.Sort
use nix2rdf.Base.Map
use nix2rdf.Base.Order.{str_ord}
use nix2rdf.Base.Result.{ok, err, Result-cases}
use nix2rdf.Base.Set.{member, cmp_eq, eq_of_cmp_eq}
use nix2rdf.Extract.Outputs.{Infos, known}
use nix2rdf.Extract.Runtime.{
  unseen, failed, out_of_fuel, lift, Seen, take_infos, next_frontier, walk,
}
use nix2rdf.Extract.Runtime.Reach.{IsPathInfo}
use nix2rdf.Extract.Runtime.Frontier.{take_infos-cases, member-next_frontier}
use nix2rdf.Extract.Runtime.Round.{take_infos-get}
use nix2rdf.Nix.Model.{PathInfo}
use nix2rdf.Nix.Source.{Error, NixSource}

-- How many of some paths are not seen.
unfoldable pub left : Seen → List Str → ℕ
left seen [] = 0
left seen (p ∷ ps) = if Map.contains_key p seen then left seen ps else suc (left seen ps)

-- Nothing that was seen is forgotten.
abbrev pub Keeps : Seen → Seen → Type 0
Keeps seen seen' = (p : Str) → Map.contains_key p seen ≡ true → Map.contains_key p seen' ≡ true

left-le : (seen seen' : Seen) (ps : List Str) → Keeps seen seen' → left seen' ps ≤ left seen ps
unfolding left
left-le seen seen' [] k = omega arith
left-le seen seen' (p ∷ ps) k = ground (arith, left-le seen seen' ps k, k p)

left-lt :
    (seen seen' : Seen) (ps : List Str) (p : Str)
    → Keeps seen seen'
    → member p ps ≡ true
    → Map.contains_key p seen ≡ false
    → Map.contains_key p seen' ≡ true
    → left seen' ps + 1 ≤ left seen ps
unfolding left member
left-lt seen seen' [] p k m fresh new = absurd (cc m)
left-lt seen seen' (q ∷ ps) p k m fresh new = elim (Bool-cases (cmp_eq p q)) [
  | inl same ↦
      let fresh' : Map.contains_key q seen ≡ false =
        ap (λ x. Map.contains_key x seen) (sym (eq_of_cmp_eq p q same)) ∙ fresh in
      let new' : Map.contains_key q seen' ≡ true =
        ap (λ x. Map.contains_key x seen') (sym (eq_of_cmp_eq p q same)) ∙ new in
      ground (arith, left-le seen seen' ps k)
  | inr other ↦ ground (arith, left-lt seen seen' ps p k, k q)
]

left-bound : (seen : Seen) (ps : List Str) → left seen ps ≤ length ps
unfolding left
left-bound seen [] = omega arith
left-bound seen (p ∷ ps) = ground (arith, left-bound seen ps)

module _ (nix : NixSource) (store : Str → Option PathInfo) (info : IsPathInfo nix store)
    (universe : List Str)
    (finite : (p : Str) (i : PathInfo) → store p ≡ some i → member p universe ≡ true) where
  -- None of the paths that are asked for is seen.
  abbrev IsFresh : List Str → Seen → Type 0
  IsFresh frontier seen = (p : Str) → member p frontier ≡ true → Map.contains_key p seen ≡ false

  walk-end : (fuel : ℕ) (seen : Seen) → walk nix (suc fuel) [] seen ≡ ok seen
  unfolding walk
  walk-end fuel seen = refl

  step_ok :
      (fuel : ℕ) (p : Str) (frontier : List Str) (seen : Seen) (infos : Infos)
      → nix.path_info (p ∷ frontier) ≡ ok infos
      → walk nix (suc fuel) (p ∷ frontier) seen
        ≡ walk nix fuel (next_frontier (take_infos infos seen [])) (take_infos infos seen []).0
  unfolding walk lift
  step_ok fuel p frontier seen infos e = rw e refl

  step_err :
      (fuel : ℕ) (p : Str) (frontier : List Str) (seen : Seen) (x : Error)
      → nix.path_info (p ∷ frontier) ≡ err x
      → walk nix (suc fuel) (p ∷ frontier) seen ≡ err (failed x)
  unfolding walk lift
  step_err fuel p frontier seen x e = rw e refl

  Keeps-round :
      (ps : List Str) (infos : Infos) (seen : Seen)
      → nix.path_info ps ≡ ok infos
      → Keeps seen (take_infos infos seen []).0
  Keeps-round ps infos seen e p h =
      ground (arith, take_infos-get infos seen [] p (info.sorted ps infos e))

  IsFresh-round :
      (infos : Infos) (seen : Seen)
      → IsFresh (next_frontier (take_infos infos seen [])) (take_infos infos seen []).0
  IsFresh-round infos seen p m =
      let st = take_infos infos seen [] in ground (arith, member-next_frontier st.0 st.1 p)

  -- What is answered was asked for, and is in the store.
  answered_is :
      (ps : List Str) (infos : Infos) (p : Str) (i : PathInfo)
      → nix.path_info ps ≡ ok infos
      → known p infos ≡ some i
      → (member p ps ≡ true) × (member p universe ≡ true)
  answered_is ps infos p i e h = elim (Bool-cases (member p ps)) [
    | inl asked ↦ (asked, finite p i (sym (info.answers ps infos p e asked) ∙ h))
    | inr not_asked ↦ absurd (cc (info.asked ps infos p e not_asked))
  ]

  ends :
      (fuel : ℕ) (seen : Seen)
      → 1 ≤ fuel
      → walk nix fuel (next_frontier (seen, [])) seen ≢ err out_of_fuel
  unfolding next_frontier Dedup.dedup Sort.sort unseen
  ends zero seen h = absurd (omega arith)
  ends (suc fuel) seen h = λ e. cc (walk-end fuel seen)

  walk-Fuel :
      (fuel : ℕ) (frontier : List Str) (seen : Seen)
      → IsFresh frontier seen
      → left seen universe + 2 ≤ fuel
      → walk nix fuel frontier seen ≢ err out_of_fuel
  walk-Fuel zero frontier seen fresh h = absurd (omega arith)
  walk-Fuel (suc fuel) [] seen fresh h = λ e. cc (walk-end fuel seen)
  walk-Fuel (suc fuel) (p ∷ frontier) seen fresh h =
      elim (Result-cases (nix.path_info (p ∷ frontier))) [
        | inr (x, is) ↦ λ e. cc (step_err fuel p frontier seen x is)
        | inl (infos, is) ↦
            let ps = p ∷ frontier in
            let st = take_infos infos seen [] in
            let fresh' = IsFresh-round infos seen in
            elim (take_infos-cases infos seen [] (info.sorted ps infos is)) [
              | inl nothing ↦ λ e. ends fuel seen (omega arith) (
                  ap (λ x. walk nix fuel (next_frontier x) x.0) (sym nothing)
                  ∙ sym (step_ok fuel p frontier seen infos is)
                  ∙ e)
              | inr (q, i, new) ↦
                  let (asked, there) = answered_is ps infos q i is new in
                  let now : Map.contains_key q st.0 ≡ true =
                    ground (arith, take_infos-get infos seen [] q (info.sorted ps infos is)) in
                  let less =
                    left-lt seen st.0 universe q (Keeps-round ps infos seen is) there
                      (fresh q asked) now in
                  λ e.
                    walk-Fuel fuel (next_frontier st) st.0 fresh' (omega arith)
                      (sym (step_ok fuel p frontier seen infos is) ∙ e)
            ]
      ]

-- The loop ends, also where Nix fails: fuel for two rounds more than there are paths in the store is
-- enough. Nix answers for each path that it is asked for, and for no other, with what the store
-- knows, in the order of the paths, and the paths of the store are among the given ones.
pub walk-ne-out_of_fuel :
    (nix : NixSource) (store : Str → Option PathInfo)
    → IsPathInfo nix store
    → (universe : List Str)
    → ((p : Str) (i : PathInfo) → store p ≡ some i → member p universe ≡ true)
    → (roots : List Str) (fuel : ℕ) → length universe + 2 ≤ fuel
    → walk nix fuel roots [] ≢ err out_of_fuel
unfolding Map.get
walk-ne-out_of_fuel nix store info universe finite roots fuel h =
    walk-Fuel nix store info universe finite fuel roots [] (λ p m. refl)
      (omega (arith, left-bound [] universe))
