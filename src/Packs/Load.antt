-- ===== src/Packs/Load.antt =====
-- `resolve` as its callers see it: the load order that it returns, the errors that it reports, and
-- that it always ends.
use nix2rdf.Base.{
  ap, suc, ◌≤◌, ◌≡◌, ◌≢◌, ◌⊎◌, inl, inr, refl, ◌∙◌, sym, true, none, some, List, [], ◌∷◌, Str,
  arith, All, length,
}
use nix2rdf.Base.Map
use nix2rdf.Base.Order.{str_ord}
use nix2rdf.Base.Set
use mathlib.Core.List.{Permᴰ}
use nix2rdf.Base.Sort
use nix2rdf.Base.Set.{member}
use nix2rdf.Packs.Model.{Pack, name}
use nix2rdf.Packs.Order.{names, IsOrdered}
use nix2rdf.Packs.Resolve.{
  State, visit, visit_all, resolve, Result, ok, err, out_of_fuel, cycle, unknown, ◌>>=◌,
}
use nix2rdf.Packs.Contract.{
  DependsOn, IsConsistent, IsTrueError, Meets, IsShort, AllDone, Asked, visit_all-Meets, open_count,
}
use nix2rdf.Packs.Visit.{IsNamed, visit-Visits}

abbrev start : State
start = record { done = []; visiting = []; order = [] }

open_count_le : (packs : List (Str × Pack)) → open_count [] packs ≤ length packs
unfolding open_count member
open_count_le [] = omega arith
open_count_le ((n, p) ∷ packs) = omega (arith, open_count_le packs)

-- Keys that are the names of their packs, entry by entry.
pub name-of_All :
    (packs : List (Str × Pack))
    → All (λ q. name q.1 ≡ q.0) packs
    → (n : Str) (p : Pack) → Map.get n packs ≡ some p
    → name p ≡ n
unfolding Map.get
name-of_All [] h n p g = absurd (cc g)
name-of_All ((k, q) ∷ packs) (e, h) n p g =
    ground (arith, name-of_All packs h n p, Set.eq_of_cmp_eq n k)

module _ (packs : List (Str × Pack)) where
  start-IsConsistent : IsConsistent packs start
  unfolding names
  start-IsConsistent = record {
    ordered = tt;
    done_names = λ n. refl;
    visiting_sorted = tt;
    known = tt;
  }

  -- What a load order promises.
  pub record IsLoadOrder (selected : List Str) (order : List Pack) : Type 0 where
    -- dependencies first, and nothing twice
    pub ordered : IsOrdered [] order
    pub complete : (n : Str) → member n selected ≡ true → member n (names order) ≡ true
    pub known : All (λ p. Map.get (name p) packs ≡ some p) order

  abbrev pub Resolves : List Str → Result (List Pack) → Type 0
  Resolves selected (ok order) = IsLoadOrder selected order
  Resolves selected (err e) = IsTrueError packs (λ a. member a selected ≡ true) e
  Resolves selected out_of_fuel = ⊥

  asked :
      (selected : List Str) (n : Str)
      → Asked packs (Sort.sort selected) n
      → member n selected ≡ true
  asked selected n h = sym (Sort.member-sort n selected) ∙ h

  resolve-of_visits :
      (selected : List Str) (r : Result State)
      → Meets packs
          (IsShort packs (suc (length packs)) start)
          (AllDone packs (Sort.sort selected) start)
          (Asked packs (Sort.sort selected))
          r
      → Resolves selected (r >>= λ s. ok s.order)
  resolve-of_visits selected (ok t) (x, k) = record {
    ordered = x.consistent.ordered;
    complete = λ n h. sym (x.consistent.done_names n) ∙ k n (Sort.member-sort n selected ∙ h);
    known = x.consistent.known;
  }
  resolve-of_visits selected (err (cycle n)) m = m
  resolve-of_visits selected (err (unknown n)) (g, inl h) = (g, inl (asked selected n h))
  resolve-of_visits selected (err (unknown n)) (g, inr (a, h, d)) =
      (g, inr (a, asked selected a h, d))
  resolve-of_visits selected out_of_fuel m = omega (arith, open_count_le packs, m)

  nothing_visiting :
      (ds : List Str) (v d : Str)
      → member v start.visiting ≡ true
      → member d ds ≡ true
      → DependsOn packs v d
  nothing_visiting ds v d h k = absurd (cc (Set.member-nil v))

  -- `resolve` returns a load order: every pack is behind all that it depends on, no pack is loaded
  -- twice, every selected pack is loaded, and each is the pack that the map has under its name. Or
  -- it reports a cycle that there is, or a name that is no pack and that the selection leads to.
  -- It never runs out of the model's fuel. The map has each pack under the pack's name.
  pub resolve-Resolves :
      (selected : List Str) → IsNamed packs → Resolves selected (resolve packs selected)
  unfolding resolve
  resolve-Resolves selected w =
      let n = suc (length packs) in
      resolve-of_visits selected (visit_all (visit packs n) (Sort.sort selected) start) (
        visit_all-Meets packs n (visit packs n) (Sort.sort selected) start (visit-Visits packs n w)
          start-IsConsistent (nothing_visiting (Sort.sort selected)))

  resolved :
      (selected : List Str) (r : Result (List Pack))
      → Resolves selected r
      → ((n : Str) → DependsOn packs n n → ⊥)
      → ((a n : Str)
          → member a selected ≡ true
          → (n ≡ a) ⊎ DependsOn packs a n
          → Map.get n packs ≢ none)
      → (order : List Pack) × (r ≡ ok order) × IsLoadOrder selected order
  resolved selected (ok order) m acyclic closed = (order, refl, m)
  resolved selected (err (cycle n)) m acyclic closed = absurd (acyclic n m)
  resolved selected (err (unknown n)) (g, inl h) acyclic closed = absurd (closed n n h (inl refl) g)
  resolved selected (err (unknown n)) (g, inr (a, h, d)) acyclic closed =
      absurd (closed a n h (inr d) g)
  resolved selected out_of_fuel m acyclic closed = absurd m

  -- Where no pack depends on itself and the selection leads to known packs only, there is a load
  -- order and `resolve` returns it. The map has each pack under the pack's name.
  pub resolve_acyclic :
      (selected : List Str)
      → IsNamed packs
      → ((n : Str) → DependsOn packs n n → ⊥)
      → ((a n : Str)
          → member a selected ≡ true
          → (n ≡ a) ⊎ DependsOn packs a n
          → Map.get n packs ≢ none)
      → (order : List Pack) × (resolve packs selected ≡ ok order) × IsLoadOrder selected order
  resolve_acyclic selected w acyclic closed =
      resolved selected (resolve packs selected) (resolve-Resolves selected w) acyclic closed

  -- The order in which packs are selected does not matter.
  pub resolve-Perm :
      {selected selected' : List Str}
      → Permᴰ selected selected'
      → resolve packs selected ≡ resolve packs selected'
  unfolding resolve
  resolve-Perm d =
      ap (λ ns. visit_all (visit packs (suc (length packs))) ns start >>= λ s. ok s.order)
        (Sort.sort-Perm d)
