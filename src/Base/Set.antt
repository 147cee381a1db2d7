-- ===== src/Base/Set.antt =====
-- `BTreeSet`: a list in strictly increasing order.
use Prim.Native.Nat.{Ordering}
use mathlib.Core.Path.{◌≡◌, refl}
use mathlib.Core.Logic.{inl, inr}
use mathlib.Core.Bool.{Bool, true, false, ◌||◌}
use mathlib.Core.List.{List, [], ◌∷◌}
use native.Mathlib.Omega.{arith}
use nix2rdf.Base.Lists.{All, All-map}
use nix2rdf.Base.Order.{Ord, ◌≺◌, Ordering-cases}
use nix2rdf.Base.Tests.{Bool-cases, if◌then◌else◌}

module _ {ℓ} {K : Type ℓ} ⦃o : Ord K⦄ where
  abbrev pub cmp_eq : K → K → Bool
  cmp_eq a b = elim (o.cmp a b) [ Ordering.eq ↦ true | _ ↦ false ]

  unfoldable pub insert : K → List K → List K
  insert a [] = a ∷ []
  insert a (b ∷ s) =
      let later = b ∷ insert a s in
      elim (o.cmp a b) [ Ordering.lt ↦ a ∷ b ∷ s | Ordering.eq ↦ b ∷ s | Ordering.gt ↦ later ]

  unfoldable pub member : K → List K → Bool
  member a [] = false
  member a (b ∷ s) = cmp_eq a b || member a s

  -- `extend`, and `collect` into an empty set
  unfoldable pub extend : List K → List K → List K
  extend [] s = s
  extend (a ∷ l) s = extend l (insert a s)

  abbrev pub IsSorted : List K → Type ℓ
  IsSorted [] = Unit
  IsSorted (a ∷ s) = All (λ b. a ≺ b) s × IsSorted s

  pub lt_irrefl : (a : K) → a ≺ a → ⊥
  lt_irrefl a h = ground (arith, o.cmp_refl a)

  pub cmp_eq_self : (a : K) → cmp_eq a a ≡ true
  cmp_eq_self a = ground (arith, o.cmp_refl a)

  pub eq_of_cmp_eq : (a b : K) → cmp_eq a b ≡ true → a ≡ b
  eq_of_cmp_eq a b h = ground (arith, o.eq_of_cmp a b)

  All-insert : (c a : K) (s : List K) → c ≺ a → All (λ b. c ≺ b) s → All (λ b. c ≺ b) (insert a s)
  unfolding insert
  All-insert c a [] p h = (p, tt)
  All-insert c a (b ∷ s) p (q, h) = ground (arith, All-insert c a s p h)

  All-lt_trans : (a b : K) (s : List K) → a ≺ b → All (λ c. b ≺ c) s → All (λ c. a ≺ c) s
  All-lt_trans a b s h = All-map (λ c k. o.lt_trans a b c h k) s

  pub insert-IsSorted : (a : K) (s : List K) → IsSorted s → IsSorted (insert a s)
  unfolding insert
  insert-IsSorted a [] h = (tt, tt)
  insert-IsSorted a (b ∷ s) (h, k) =
      ground (arith, insert-IsSorted a s k, All-lt_trans a b s, All-insert b a s, o.lt_of_gt a b)

  pub insert-lt : (a b : K) (s : List K) → a ≺ b → insert a (b ∷ s) ≡ a ∷ b ∷ s
  unfolding insert
  insert-lt a b s h = ground arith

  pub insert-eq : (a b : K) (s : List K) → o.cmp a b ≡ Ordering.eq → insert a (b ∷ s) ≡ b ∷ s
  unfolding insert
  insert-eq a b s h = ground arith

  pub insert-gt :
      (a b : K) (s : List K) → o.cmp a b ≡ Ordering.gt → insert a (b ∷ s) ≡ b ∷ insert a s
  unfolding insert
  insert-gt a b s h = ground arith

  pub member-insert : (a b : K) (s : List K) → member a (insert b s) ≡ (cmp_eq a b || member a s)
  unfolding member insert
  member-insert a b [] = refl
  member-insert a b (c ∷ s) = ground (arith, member-insert a b s, o.eq_of_cmp b c)

  pub not_member_of_lt : (a : K) (s : List K) → All (λ b. a ≺ b) s → member a s ≡ false
  unfolding member
  not_member_of_lt a [] h = refl
  not_member_of_lt a (b ∷ s) (h, k) = ground (arith, not_member_of_lt a s k)

  not_member_cons : (a b : K) (s : List K) → a ≺ b → All (λ c. b ≺ c) s → member a (b ∷ s) ≡ false
  not_member_cons a b s h k = not_member_of_lt a (b ∷ s) (h, All-lt_trans a b s h k)

  member_head : (a : K) (s : List K) → member a (a ∷ s) ≡ true
  unfolding member
  member_head a s = ground (arith, o.cmp_refl a)

  pub member-nil : (a : K) → member a [] ≡ false
  unfolding member
  member-nil a = refl

  member_tail :
      (c a : K) (s t : List K)
      → All (λ b. a ≺ b) s
      → All (λ b. a ≺ b) t
      → member c (a ∷ s) ≡ member c (a ∷ t)
      → member c s ≡ member c t
  unfolding member
  member_tail c a s t hs ht e = elim (Bool-cases (cmp_eq c a)) [
    | inl same ↦
        let p = eq_of_cmp_eq c a same in rw (p, not_member_of_lt a s hs, not_member_of_lt a t ht)
    | inr other ↦ ground arith
  ]

  -- A set is determined by its members.
  pub eq_of_members :
      (s t : List K) → IsSorted s → IsSorted t → ((c : K) → member c s ≡ member c t) → s ≡ t
  eq_of_members [] [] hs ht e = refl
  eq_of_members [] (b ∷ t) hs ht e = cc (e b, member_head b t, member-nil b)
  eq_of_members (a ∷ s) [] hs ht e = cc (e a, member_head a s, member-nil a)
  eq_of_members (a ∷ s) (b ∷ t) (has, hs) (hbt, ht) e = elim (Ordering-cases (o.cmp a b)) [
    | inl h ↦ cc (e a, member_head a s, not_member_cons a b t h hbt)
    | inr (inl h) ↦
        let p = o.eq_of_cmp a b h in
        let hbt' : All (λ c. a ≺ c) t = rw p hbt in
        let tails : s ≡ t =
          eq_of_members s t hs ht (λ c. member_tail c a s t has hbt' (rw (← p) at (e c))) in
        cc
    | inr (inr h) ↦ cc (e b, member_head b t, not_member_cons b a s (o.lt_of_gt a b h) has)
  ]

  pub insert_of_member : (a : K) (s : List K) → IsSorted s → member a s ≡ true → insert a s ≡ s
  insert_of_member a s h m =
      eq_of_members (insert a s) s (insert-IsSorted a s h) h
        λ c. ground (arith, member-insert c a s, eq_of_cmp_eq c a)

  pub extend-IsSorted : (l s : List K) → IsSorted s → IsSorted (extend l s)
  unfolding extend
  extend-IsSorted [] s h = h
  extend-IsSorted (a ∷ l) s h = extend-IsSorted l (insert a s) (insert-IsSorted a s h)

  pub member-extend : (c : K) (l s : List K) → member c (extend l s) ≡ (member c l || member c s)
  unfolding extend member
  member-extend c [] s = refl
  member-extend c (a ∷ l) s = ground (arith, member-extend c l (insert a s), member-insert c a s)

  -- Collecting is insensitive to order and repetition.
  pub extend_congr :
      (l m s : List K) → IsSorted s → ((c : K) → member c l ≡ member c m) → extend l s ≡ extend m s
  extend_congr l m s h e =
      eq_of_members _ _ (extend-IsSorted l s h) (extend-IsSorted m s h)
        λ c. rw (member-extend c l s, member-extend c m s, e c)

  pub extend_of_IsSorted : (s : List K) → IsSorted s → extend s [] ≡ s
  extend_of_IsSorted s h =
      eq_of_members _ s (extend-IsSorted s [] tt) h
        λ c. ground (arith, member-extend c s [], member-nil c)

  unfoldable pub remove : K → List K → List K
  remove a [] = []
  remove a (b ∷ s) = if cmp_eq a b then s else b ∷ remove a s

  All-remove : (c a : K) (s : List K) → All (λ b. c ≺ b) s → All (λ b. c ≺ b) (remove a s)
  unfolding remove
  All-remove c a [] h = h
  All-remove c a (b ∷ s) (p, h) = ground (arith, All-remove c a s h)

  pub remove-IsSorted : (a : K) (s : List K) → IsSorted s → IsSorted (remove a s)
  unfolding remove
  remove-IsSorted a [] h = h
  remove-IsSorted a (b ∷ s) (p, h) = ground (arith, remove-IsSorted a s h, All-remove b a s p)

  pub member-remove :
      (c a : K) (s : List K)
      → IsSorted s
      → member c (remove a s) ≡ (if cmp_eq c a then false else member c s)
  unfolding remove member
  member-remove c a [] h = ground arith
  member-remove c a (b ∷ s) (p, h) = ground (
    arith,
    member-remove c a s h,
    not_member_of_lt b s p,
    o.eq_of_cmp a b,
    o.eq_of_cmp c a,
    o.cmp_refl b,
  )
