-- ===== src/Base/Sort.antt =====
-- `sort` on a list, which keeps repeated elements.
use Prim.Native.Nat.{Ordering}
use mathlib.Core.Path.{◌≡◌, refl, ap, ◌∙◌}
use mathlib.Core.Logic.{inl, inr}
use mathlib.Core.Bool.{◌||◌}
use mathlib.Core.List.{List, [], ◌∷◌, Permᴰ}
use native.Mathlib.Omega.{arith}
use nix2rdf.Base.Order.{gt_of_lt, Ord, Ordering-cases}
use nix2rdf.Base.Set.{cmp_eq, member}

module _ {ℓ} {K : Type ℓ} ⦃o : Ord K⦄ where
  unfoldable pub insert_sorted : K → List K → List K
  insert_sorted a [] = a ∷ []
  insert_sorted a (b ∷ l) =
      let later = b ∷ insert_sorted a l in elim (o.cmp a b) [ Ordering.gt ↦ later | _ ↦ a ∷ b ∷ l ]

  unfoldable pub sort : List K → List K
  sort [] = []
  sort (a ∷ l) = insert_sorted a (sort l)

  member-insert_sorted :
      (c a : K) (l : List K) → member c (insert_sorted a l) ≡ (cmp_eq c a || member c l)
  unfolding insert_sorted member
  member-insert_sorted c a [] = refl
  member-insert_sorted c a (b ∷ l) = ground (arith, member-insert_sorted c a l)

  pub member-sort : (c : K) (l : List K) → member c (sort l) ≡ member c l
  unfolding sort member
  member-sort c [] = refl
  member-sort c (a ∷ l) = ground (arith, member-sort c l, member-insert_sorted c a (sort l))

  insert_sorted_comm :
      (a b : K) (l : List K)
      → insert_sorted a (insert_sorted b l) ≡ insert_sorted b (insert_sorted a l)
  unfolding insert_sorted
  insert_sorted_comm a b [] = ground (arith, o.eq_of_cmp a b, o.lt_of_gt a b, gt_of_lt o a b)
  insert_sorted_comm a b (c ∷ l) = elim (Ordering-cases (o.cmp a b)) [
    | inl h ↦ ground (
      arith,
      gt_of_lt o a b h,
      o.lt_trans a b c,
      o.eq_of_cmp b c,
      o.eq_of_cmp a c,
      insert_sorted_comm a b l,
    )
    | inr (inl h) ↦ rw (o.eq_of_cmp a b h) refl
    | inr (inr h) ↦ ground (
      arith,
      o.lt_of_gt a b h,
      o.lt_trans b a c,
      o.eq_of_cmp b c,
      o.eq_of_cmp a c,
      insert_sorted_comm a b l,
    )
  ]

  -- The order of a list does not matter.
  pub sort-Perm : {xs ys : List K} → Permᴰ xs ys → sort xs ≡ sort ys
  unfolding sort
  sort-Perm Permᴰ.nil = refl
  sort-Perm (Permᴰ.cons {a} {b} {l₁} {l₂} e d) =
      ap (λ x. insert_sorted x (sort l₁)) e ∙ ap (insert_sorted b) (sort-Perm d)
  sort-Perm (Permᴰ.swap {a} {b} {a'} {b'} {l} e f) =
      insert_sorted_comm a b (sort l)
      ∙ ap (λ x. insert_sorted x (insert_sorted a (sort l))) f
      ∙ ap (λ x. insert_sorted a' (insert_sorted x (sort l))) e
  sort-Perm (Permᴰ.trans d d') = sort-Perm d ∙ sort-Perm d'
