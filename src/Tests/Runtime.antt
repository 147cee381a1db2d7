-- ===== src/Tests/Runtime.antt =====
-- What the top of a store leads to at run time.
use nix2rdf.Base.{str_eq, ◌≡◌, ◌≢◌, ◌↔◌, refl, true, some, none, List, [], ◌∷◌, Str, arith}
use nix2rdf.Base.Dedup
use nix2rdf.Base.Map
use nix2rdf.Base.Order.{str_cmp, str_ord}
use nix2rdf.Base.Set.{member}
use nix2rdf.Base.Sort
use nix2rdf.Base.Result.{ok, err}
use nix2rdf.Extract.Runtime.{
  out_of_fuel, Seen, walk, lift, take_infos, push_refs, unseen, next_frontier,
}
use nix2rdf.Extract.Runtime.Reach.{Reach, walk-Reach}
use nix2rdf.Extract.Runtime.Total.{walk-ne-out_of_fuel}
use nix2rdf.Nix.Model.{PathInfo}
use nix2rdf.Tests.Sample.{top, dep, info_of, entries, store, answer, nix, nix-IsPathInfo}

-- The source is not reached.
abbrev found : Seen
found = (top, info_of none (top ∷ dep ∷ [])) ∷ (dep, info_of none []) ∷ []

top-walked : walk nix 5 (top ∷ []) [] ≡ ok found
unfolding walk lift take_infos push_refs unseen next_frontier answer Dedup.dedup Sort.sort Map.get
    Map.insert member str_cmp str_eq Sort.insert_sorted Dedup.dedup_after
top-walked = refl

walk-Reach_example :
    (Map.get dep found ≡ some (info_of none []))
    ↔ ((store dep ≡ some (info_of none [])) × Reach store (top ∷ []) dep)
walk-Reach_example =
    walk-Reach nix store (top ∷ []) nix-IsPathInfo 5 found top-walked dep (info_of none [])

stored_is :
    (es : List (Str × PathInfo)) (p : Str) (i : PathInfo)
    → Map.get p es ≡ some i
    → member p (Map.keys es) ≡ true
unfolding Map.get Map.keys member
stored_is [] p i e = absurd (cc e)
stored_is ((q, j) ∷ es) p i e = ground (arith, stored_is es p i)

walk-ne-out_of_fuel_example : walk nix 5 (top ∷ []) [] ≢ err out_of_fuel
unfolding Map.keys
walk-ne-out_of_fuel_example =
    walk-ne-out_of_fuel nix store nix-IsPathInfo (Map.keys entries) (stored_is entries) (top ∷ []) 5
      (omega arith)
