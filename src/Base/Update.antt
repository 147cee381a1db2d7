-- ===== src/Base/Update.antt =====
-- Changes of a map that may be made in either order.
use Prim.Native.Nat.{Ordering}
use mathlib.Core.Path.{refl, ◌≡◌, sym, ap, ◌∙◌, subst}
use mathlib.Core.Logic.{inl, inr}
use mathlib.Core.Bool.{false}
use mathlib.Core.Option.{Option, some}
use mathlib.Core.Option.{none, some}
use mathlib.Core.List.{List, [], ◌∷◌}
use native.Mathlib.Omega.{arith}
use nix2rdf.Base.Map
use nix2rdf.Base.Map.{insert, get}
use nix2rdf.Base.Order.{Ord, Ordering-cases, gt_of_lt}
use nix2rdf.Base.Set
use nix2rdf.Base.Set.{cmp_eq, eq_of_cmp_eq}
use nix2rdf.Base.Steps.{for_each, if_some}
use nix2rdf.Base.Tests.{Bool-cases}

cmp_eq_sym {ℓ} : {K : Type ℓ} ⦃o : Ord K⦄ (k j : K) → cmp_eq k j ≡ false → cmp_eq j k ≡ false
cmp_eq_sym ⦃o⦄ k j h = ground (arith, o.eq_of_cmp j k, o.cmp_refl k)

module _ {ℓ κ} {K : Type ℓ} {V : Type κ} ⦃o : Ord K⦄ where
  -- `*map.entry(k)…`: the value under a key is made anew from the old one.
  abbrev pub update : K → (Option V → V) → List (K × V) → List (K × V)
  update k g m = insert k (g (get k m)) m

  pub insert_again : (k : K) (v w : V) (m : List (K × V)) → insert k v (insert k w m) ≡ insert k v m
  unfolding insert
  insert_again k v w [] = ground (arith, o.cmp_refl k)
  insert_again k v w ((i, x) ∷ m) =
      ground (arith, insert_again k v w m, o.cmp_refl k, o.eq_of_cmp k i)

  insert-lt :
      (k j : K) (v w : V) (m : List (K × V))
      → o.cmp k j ≡ Ordering.lt
      → insert k v (insert j w m) ≡ insert j w (insert k v m)
  unfolding insert
  insert-lt k j v w [] h = ground (arith, gt_of_lt o k j)
  insert-lt k j v w ((i, x) ∷ m) h = ground (
    arith,
    gt_of_lt o k j,
    insert-lt k j v w m h,
    o.lt_trans k j i,
    o.eq_of_cmp j i,
    o.eq_of_cmp k i,
  )

  pub insert_comm :
      (k j : K) (v w : V) (m : List (K × V))
      → cmp_eq k j ≡ false
      → insert k v (insert j w m) ≡ insert j w (insert k v m)
  insert_comm k j v w m h = elim (Ordering-cases (o.cmp k j)) [
    | inl lt ↦ insert-lt k j v w m lt
    | inr (inl eq) ↦ ground arith
    | inr (inr gt) ↦ sym (insert-lt j k w v m (o.lt_of_gt k j gt))
  ]

  -- Two changes commute where their keys differ or the changes of the value do.
  pub update_comm :
      (k j : K) (g h : Option V → V) (m : List (K × V))
      → ((x : Option V) → g (some (h x)) ≡ h (some (g x)))
      → update k g (update j h m) ≡ update j h (update k g m)
  update_comm k j g h m both = elim (Bool-cases (cmp_eq k j)) [
    | inl same ↦
        subst (λ x. update k g (update x h m) ≡ update x h (update k g m)) (eq_of_cmp_eq k j same)
          (ap (λ v. insert k (g v) (insert k (h (get k m)) m))
              (Map.get-insert_self k (h (get k m)) m)
            ∙ insert_again k _ _ m
            ∙ ap (λ v. insert k v m) (both (get k m))
            ∙ sym (insert_again k _ (g (get k m)) m)
            ∙ ap (λ v. insert k (h v) (insert k (g (get k m)) m))
                (sym (Map.get-insert_self k (g (get k m)) m)))
    | inr other ↦
        ap (λ v. insert k (g v) (insert j (h (get j m)) m))
          (Map.get-insert_other j k (h (get j m)) m other)
        ∙ insert_comm k j _ _ m other
        ∙ ap (λ v. insert j (h v) (insert k (g (get k m)) m))
            (sym (Map.get-insert_other k j (g (get k m)) m (cmp_eq_sym k j other)))
  ]

-- Steps that may be swapped.
abbrev pub Commute {ℓ} : {F : Type ℓ} → (F → F) → (F → F) → Type ℓ
Commute {F = F} u v = (f : F) → u (v f) ≡ v (u f)

pub Commute-sym {ℓ} : {F : Type ℓ} (u v : F → F) → Commute u v → Commute v u
Commute-sym u v c f = sym (c f)

module _ {ℓ κ} {A : Type ℓ} {F : Type κ} (step : A → F → F) (v : F → F) where
  pub Commute-if_some : ((a : A) → Commute (step a) v) → (x : Option A) → Commute (if_some step x) v
  Commute-if_some c none f = refl
  Commute-if_some c (some a) f = c a f

  pub Commute-for_each :
      ((a : A) → Commute (step a) v) → (xs : List A) → Commute (for_each step xs) v
  unfolding for_each
  Commute-for_each c [] f = refl
  Commute-for_each c (a ∷ xs) f = ap (for_each step xs) (c a f) ∙ Commute-for_each c xs (step a f)

-- Adding elements to a set.
module _ {ℓ} {K : Type ℓ} ⦃o : Ord K⦄ where
  insert_set_lt :
      (a b : K) (s : List K)
      → o.cmp a b ≡ Ordering.lt
      → Set.insert a (Set.insert b s) ≡ Set.insert b (Set.insert a s)
  unfolding Set.insert
  insert_set_lt a b [] h = ground (arith, gt_of_lt o a b)
  insert_set_lt a b (c ∷ s) h = ground (
    arith,
    gt_of_lt o a b,
    insert_set_lt a b s h,
    o.lt_trans a b c,
    o.eq_of_cmp b c,
    o.eq_of_cmp a c,
  )

  pub insert_set_comm :
      (a b : K) (s : List K) → Set.insert a (Set.insert b s) ≡ Set.insert b (Set.insert a s)
  insert_set_comm a b s = elim (Ordering-cases (o.cmp a b)) [
    | inl lt ↦ insert_set_lt a b s lt
    | inr (inl eq) ↦
        subst (λ x. Set.insert a (Set.insert x s) ≡ Set.insert x (Set.insert a s))
          (o.eq_of_cmp a b eq) refl
    | inr (inr gt) ↦ sym (insert_set_lt b a s (o.lt_of_gt a b gt))
  ]
