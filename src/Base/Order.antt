-- ===== src/Base/Order.antt =====
-- Orders with their laws: `Ord` of Rust's standard library for bytes, texts and tuples.
use Prim.Native.Nat.{compare, Ordering}
use Prim.Native.Nat.Ordering.{lt, eq, gt}
use mathlib.Core.Path.{◌≡◌, refl}
use mathlib.Core.Logic.{◌⊎◌, inl, inr}
use mathlib.Core.List.{List, [], ◌∷◌}
use native.Mathlib.Omega.{arith}
use nix2rdf.Base.Text.{Str}

pub record Ord {ℓ} (K : Type ℓ) : Type ℓ where
  pub cmp : K → K → Ordering
  pub lt_trans : (x y z : K) → cmp x y ≡ lt → cmp y z ≡ lt → cmp x z ≡ lt
  pub lt_of_gt : (x y : K) → cmp x y ≡ gt → cmp y x ≡ lt
  pub eq_of_cmp : (x y : K) → cmp x y ≡ eq → x ≡ y
  pub cmp_refl : (x : K) → cmp x x ≡ eq

pub gt_of_lt {ℓ} : {K : Type ℓ} (o : Ord K) (a b : K) → o.cmp a b ≡ lt → o.cmp b a ≡ gt
gt_of_lt o a b h = ground (arith, o.eq_of_cmp b a, o.cmp_refl a, o.lt_trans a b a, o.lt_of_gt b a)

-- `a < b`
infix 50 ◌≺◌
abbrev pub ◌≺◌ {ℓ} : {K : Type ℓ} → ⦃o : Ord K⦄ → K → K → Type 0
◌≺◌ {K} ⦃o⦄ x y = o.cmp x y ≡ lt

-- `Ordering::then`
abbrev pub then_cmp : Ordering → Ordering → Ordering
then_cmp eq second = second
then_cmp first _ = first

pub Ordering-cases : (o : Ordering) → (o ≡ lt) ⊎ (o ≡ eq) ⊎ (o ≡ gt)
Ordering-cases lt = inl refl
Ordering-cases eq = inr (inl refl)
Ordering-cases gt = inr (inr refl)

-- Texts compare byte by byte.
unfoldable pub str_cmp : Str → Str → Ordering
str_cmp [] [] = eq
str_cmp [] (b ∷ t) = lt
str_cmp (a ∷ s) [] = gt
str_cmp (a ∷ s) (b ∷ t) = then_cmp (compare a b) (str_cmp s t)

pub str_cmp_refl : (s : Str) → str_cmp s s ≡ eq
unfolding str_cmp
str_cmp_refl [] = refl
str_cmp_refl (a ∷ s) = ground (arith, str_cmp_refl s)

pub eq_of_str_cmp : (s t : Str) → str_cmp s t ≡ eq → s ≡ t
unfolding str_cmp
eq_of_str_cmp [] [] h = refl
eq_of_str_cmp [] (b ∷ t) h = cc
eq_of_str_cmp (a ∷ s) [] h = cc
eq_of_str_cmp (a ∷ s) (b ∷ t) h = ground (arith, eq_of_str_cmp s t)

pub str_lt_of_gt : (s t : Str) → str_cmp s t ≡ gt → str_cmp t s ≡ lt
unfolding str_cmp
str_lt_of_gt [] [] h = cc
str_lt_of_gt [] (b ∷ t) h = cc
str_lt_of_gt (a ∷ s) [] h = refl
str_lt_of_gt (a ∷ s) (b ∷ t) h = ground (arith, str_lt_of_gt s t)

pub str_lt_trans : (s t u : Str) → str_cmp s t ≡ lt → str_cmp t u ≡ lt → str_cmp s u ≡ lt
unfolding str_cmp
str_lt_trans [] [] u h k = k
str_lt_trans [] (b ∷ t) [] h k = cc
str_lt_trans [] (b ∷ t) (c ∷ u) h k = refl
str_lt_trans (a ∷ s) [] u h k = cc
str_lt_trans (a ∷ s) (b ∷ t) [] h k = cc
str_lt_trans (a ∷ s) (b ∷ t) (c ∷ u) h k = ground (arith, str_lt_trans s t u)

instance abbrev pub str_ord : Ord Str
str_ord = record {
  cmp = str_cmp;
  lt_trans = str_lt_trans;
  lt_of_gt = str_lt_of_gt;
  eq_of_cmp = eq_of_str_cmp;
  cmp_refl = str_cmp_refl;
}

-- Tuples compare by the first component, then by the second.
module _ {ℓ κ} {X : Type ℓ} {Y : Type κ} ⦃first : Ord X⦄ ⦃second : Ord Y⦄ where
  abbrev pub pair_cmp : X × Y → X × Y → Ordering
  pair_cmp (x, y) (x', y') = then_cmp (first.cmp x x') (second.cmp y y')

  pub pair_lt_trans : (p q r : X × Y) → pair_cmp p q ≡ lt → pair_cmp q r ≡ lt → pair_cmp p r ≡ lt
  pair_lt_trans (x, y) (x', y') (x'', y'') h k = ground (
    arith,
    first.eq_of_cmp x x',
    first.eq_of_cmp x' x'',
    first.lt_trans x x' x'',
    second.lt_trans y y' y'',
  )

  pub pair_lt_of_gt : (p q : X × Y) → pair_cmp p q ≡ gt → pair_cmp q p ≡ lt
  pair_lt_of_gt (x, y) (x', y') h =
      ground
        (arith, first.eq_of_cmp x x', first.cmp_refl x, first.lt_of_gt x x', second.lt_of_gt y y')

  pub eq_of_pair_cmp : (p q : X × Y) → pair_cmp p q ≡ eq → p ≡ q
  eq_of_pair_cmp (x, y) (x', y') h = ground (arith, first.eq_of_cmp x x', second.eq_of_cmp y y')

  pub pair_cmp_refl : (p : X × Y) → pair_cmp p p ≡ eq
  pair_cmp_refl (x, y) = ground (arith, first.cmp_refl x, second.cmp_refl y)

  instance abbrev pub pair_ord : Ord (X × Y)
  pair_ord = record {
    cmp = pair_cmp;
    lt_trans = pair_lt_trans;
    lt_of_gt = pair_lt_of_gt;
    eq_of_cmp = eq_of_pair_cmp;
    cmp_refl = pair_cmp_refl;
  }

-- Lists compare lexicographically.
module _ {ℓ} {A : Type ℓ} ⦃o : Ord A⦄ where
  unfoldable pub list_cmp : List A → List A → Ordering
  list_cmp [] [] = eq
  list_cmp [] (_ ∷ _) = lt
  list_cmp (_ ∷ _) [] = gt
  list_cmp (x ∷ xs) (y ∷ ys) = then_cmp (o.cmp x y) (list_cmp xs ys)

  pub list_cmp_refl : (xs : List A) → list_cmp xs xs ≡ eq
  unfolding list_cmp
  list_cmp_refl [] = refl
  list_cmp_refl (x ∷ xs) = ground (arith, o.cmp_refl x, list_cmp_refl xs)

  pub eq_of_list_cmp : (xs ys : List A) → list_cmp xs ys ≡ eq → xs ≡ ys
  unfolding list_cmp
  eq_of_list_cmp [] [] h = refl
  eq_of_list_cmp [] (_ ∷ _) h = cc
  eq_of_list_cmp (_ ∷ _) [] h = cc
  eq_of_list_cmp (x ∷ xs) (y ∷ ys) h = ground (arith, o.eq_of_cmp x y, eq_of_list_cmp xs ys)

  pub list_lt_of_gt : (xs ys : List A) → list_cmp xs ys ≡ gt → list_cmp ys xs ≡ lt
  unfolding list_cmp
  list_lt_of_gt [] [] h = cc
  list_lt_of_gt [] (_ ∷ _) h = cc
  list_lt_of_gt (_ ∷ _) [] h = refl
  list_lt_of_gt (x ∷ xs) (y ∷ ys) h =
      ground (arith, o.eq_of_cmp x y, o.cmp_refl x, o.lt_of_gt x y, list_lt_of_gt xs ys)

  pub list_lt_trans :
      (xs ys zs : List A) → list_cmp xs ys ≡ lt → list_cmp ys zs ≡ lt → list_cmp xs zs ≡ lt
  unfolding list_cmp
  list_lt_trans [] [] zs h k = k
  list_lt_trans [] (_ ∷ _) [] h k = cc
  list_lt_trans [] (_ ∷ _) (_ ∷ _) h k = refl
  list_lt_trans (_ ∷ _) [] zs h k = cc
  list_lt_trans (_ ∷ _) (_ ∷ _) [] h k = cc
  list_lt_trans (x ∷ xs) (y ∷ ys) (z ∷ zs) h k =
      ground (arith, o.eq_of_cmp x y, o.eq_of_cmp y z, o.lt_trans x y z, list_lt_trans xs ys zs)

  instance abbrev pub list_ord : Ord (List A)
  list_ord = record {
    cmp = list_cmp;
    lt_trans = list_lt_trans;
    lt_of_gt = list_lt_of_gt;
    eq_of_cmp = eq_of_list_cmp;
    cmp_refl = list_cmp_refl;
  }
