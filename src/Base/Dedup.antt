-- ===== src/Base/Dedup.antt =====
-- `dedup` behind `sort`: the strictly increasing list of the elements.
use Prim.Native.Nat.{Ordering}
use mathlib.Core.Path.{◌≡◌, refl, sym, ap, ◌∙◌}
use mathlib.Core.Logic.{inl, inr, ◌≢◌}
use mathlib.Core.Bool.{◌||◌}
use mathlib.Core.List.{List, [], ◌∷◌}
use native.Mathlib.Omega.{arith}
use mathlib.Core.Path.{subst}
use nix2rdf.Base.Lists.{All, All-map}
use nix2rdf.Base.Tests.{if◌then◌else◌}
use nix2rdf.Base.Order.{Ord, Ordering-cases, ◌≺◌}
use nix2rdf.Base.Set
use nix2rdf.Base.Set.{cmp_eq, member, eq_of_cmp_eq, cmp_eq_self}
use nix2rdf.Base.Sort.{sort, insert_sorted, member-sort}

module _ {ℓ} {K : Type ℓ} ⦃o : Ord K⦄ where
  -- `dedup`: the first of equal neighbours stays; `a` is the last that was kept.
  unfoldable pub dedup_after : K → List K → List K
  dedup_after a [] = []
  dedup_after a (b ∷ l) =
      let rest = dedup_after b l in
      let same = dedup_after a l in if cmp_eq a b then same else b ∷ rest

  unfoldable pub dedup : List K → List K
  dedup [] = []
  dedup (a ∷ l) = a ∷ dedup_after a l

  abbrev AtMost : K → K → Type 0
  AtMost a b = o.cmp a b ≢ Ordering.gt

  abbrev IsWeaklySorted : List K → Type ℓ
  IsWeaklySorted [] = Unit
  IsWeaklySorted (a ∷ l) = All (AtMost a) l × IsWeaklySorted l

  AtMost-trans : (a b c : K) → AtMost a b → AtMost b c → AtMost a c
  AtMost-trans a b c h k e = elim (Ordering-cases (o.cmp a b)) [
    | inl lt ↦ elim (Ordering-cases (o.cmp b c)) [
      | inl lt' ↦ cc (o.lt_trans a b c lt lt')
      | inr (inl eq') ↦ ground (arith, o.eq_of_cmp b c eq')
      | inr (inr gt') ↦ k gt'
    ]
    | inr (inl eq) ↦ ground (arith, o.eq_of_cmp a b eq)
    | inr (inr gt) ↦ h gt
  ]

  All-insert_sorted :
      (c a : K) (l : List K) → AtMost c a → All (AtMost c) l → All (AtMost c) (insert_sorted a l)
  unfolding insert_sorted
  All-insert_sorted c a [] p h = (p, tt)
  All-insert_sorted c a (b ∷ l) p (q, h) = ground (arith, All-insert_sorted c a l p h)

  insert_front : (a b : K) (l : List K) → AtMost a b → insert_sorted a (b ∷ l) ≡ a ∷ b ∷ l
  unfolding insert_sorted
  insert_front a b l h = ground arith

  insert_behind :
      (a b : K) (l : List K)
      → o.cmp a b ≡ Ordering.gt
      → insert_sorted a (b ∷ l) ≡ b ∷ insert_sorted a l
  unfolding insert_sorted
  insert_behind a b l h = ground arith

  AtMost-of_lt : (a b : K) → o.cmp a b ≡ Ordering.lt → AtMost a b
  AtMost-of_lt a b h e = cc

  AtMost-of_eq : (a b : K) → o.cmp a b ≡ Ordering.eq → AtMost a b
  AtMost-of_eq a b h e = cc

  front :
      (a b : K) (l : List K)
      → AtMost a b
      → All (AtMost b) l
      → IsWeaklySorted l
      → IsWeaklySorted (insert_sorted a (b ∷ l))
  front a b l p h w =
      subst IsWeaklySorted (sym (insert_front a b l p))
        ((p, All-map (λ c q. AtMost-trans a b c p q) l h), (h, w))

  insert_sorted-IsWeaklySorted :
      (a : K) (l : List K) → IsWeaklySorted l → IsWeaklySorted (insert_sorted a l)
  unfolding insert_sorted
  insert_sorted-IsWeaklySorted a [] h = (tt, tt)
  insert_sorted-IsWeaklySorted a (b ∷ l) (h, w) = elim (Ordering-cases (o.cmp a b)) [
    | inl lt ↦ front a b l (AtMost-of_lt a b lt) h w
    | inr (inl eq) ↦ front a b l (AtMost-of_eq a b eq) h w
    | inr (inr gt) ↦ subst IsWeaklySorted (sym (insert_behind a b l gt)) (
      All-insert_sorted b a l (AtMost-of_lt b a (o.lt_of_gt a b gt)) h,
      insert_sorted-IsWeaklySorted a l w,
    )
  ]

  sort-IsWeaklySorted : (l : List K) → IsWeaklySorted (sort l)
  unfolding sort
  sort-IsWeaklySorted [] = tt
  sort-IsWeaklySorted (a ∷ l) = insert_sorted-IsWeaklySorted a (sort l) (sort-IsWeaklySorted l)

  All-dedup_after : (c a : K) (l : List K) → All (λ b. c ≺ b) l → All (λ b. c ≺ b) (dedup_after a l)
  unfolding dedup_after
  All-dedup_after c a [] h = tt
  All-dedup_after c a (b ∷ l) (p, h) =
      ground (arith, All-dedup_after c a l h, All-dedup_after c b l h)

  lt-AtMost : (a b c : K) → o.cmp a b ≡ Ordering.lt → AtMost b c → o.cmp a c ≡ Ordering.lt
  lt-AtMost a b c h p = elim (Ordering-cases (o.cmp b c)) [
    | inl lt ↦ o.lt_trans a b c h lt
    | inr (inl eq) ↦ ap (o.cmp a) (sym (o.eq_of_cmp b c eq)) ∙ h
    | inr (inr gt) ↦ absurd (p gt)
  ]

  lt-All : (a b : K) (l : List K) → o.cmp a b ≡ Ordering.lt → All (AtMost b) l → All (λ c. a ≺ c) l
  lt-All a b [] h k = tt
  lt-All a b (c ∷ l) h (p, k) = (lt-AtMost a b c h p, lt-All a b l h k)

  dedup_same :
      (a b : K) (l : List K) → o.cmp a b ≡ Ordering.eq → dedup_after a (b ∷ l) ≡ dedup_after a l
  unfolding dedup_after
  dedup_same a b l h = ground arith

  dedup_new :
      (a b : K) (l : List K) → o.cmp a b ≡ Ordering.lt → dedup_after a (b ∷ l) ≡ b ∷ dedup_after b l
  unfolding dedup_after
  dedup_new a b l h = ground arith

  abbrev Follows : K → List K → Type ℓ
  Follows a l = All (λ b. a ≺ b) l × Set.IsSorted l

  dedup_after-Follows :
      (a : K) (l : List K) → All (AtMost a) l → IsWeaklySorted l → Follows a (dedup_after a l)
  unfolding dedup_after
  dedup_after-Follows a [] h w = (tt, tt)
  dedup_after-Follows a (b ∷ l) (p, h) (k, w) = elim (Ordering-cases (o.cmp a b)) [
    | inl lt ↦
        subst (Follows a) (sym (dedup_new a b l lt))
          ((lt, All-dedup_after a b l (lt-All a b l lt k)), dedup_after-Follows b l k w)
    | inr (inl eq) ↦ subst (Follows a) (sym (dedup_same a b l eq)) (dedup_after-Follows a l h w)
    | inr (inr gt) ↦ absurd (p gt)
  ]

  dedup-IsSorted : (l : List K) → IsWeaklySorted l → Set.IsSorted (dedup l)
  unfolding dedup
  dedup-IsSorted [] w = tt
  dedup-IsSorted (a ∷ l) (h, w) = dedup_after-Follows a l h w

  member-dedup_after :
      (c a : K) (l : List K)
      → (cmp_eq c a || member c (dedup_after a l)) ≡ (cmp_eq c a || member c l)
  unfolding dedup_after member
  member-dedup_after c a [] = refl
  member-dedup_after c a (b ∷ l) =
      ground (arith, member-dedup_after c a l, member-dedup_after c b l, o.eq_of_cmp a b)

  member-dedup : (c : K) (l : List K) → member c (dedup l) ≡ member c l
  unfolding dedup member
  member-dedup c [] = refl
  member-dedup c (a ∷ l) = member-dedup_after c a l

  -- Sorting and removing repetitions makes the set of the elements.
  pub dedup-sort : (l : List K) → dedup (sort l) ≡ Set.extend l []
  dedup-sort l =
      Set.eq_of_members (dedup (sort l)) (Set.extend l [])
        (dedup-IsSorted (sort l) (sort-IsWeaklySorted l)) (Set.extend-IsSorted l [] tt)
        λ c.
          member-dedup c (sort l)
          ∙ member-sort c l
          ∙ ground (arith, Set.member-extend c l [], Set.member-nil c)
