-- ===== src/Base/Map.antt =====
-- `BTreeMap`: an association list whose keys strictly increase.
use Prim.Native.Nat.{Ordering}
use mathlib.Core.Path.{◌≡◌, refl}
use mathlib.Core.Logic.{inl, inr}
use mathlib.Core.Bool.{false, Bool}
use mathlib.Core.Option.{Option, none, some}
use mathlib.Core.List.{◌++◌, List, [], ◌∷◌}
use native.Mathlib.Omega.{arith}
use nix2rdf.Base.Lists.{All-append_right, All, All-map}
use nix2rdf.Base.Order.{gt_of_lt, Ord, ◌≺◌, Ordering-cases}
use nix2rdf.Base.Set.{cmp_eq, eq_of_cmp_eq}
use nix2rdf.Base.Tests.{Bool-cases, if◌then◌else◌, is_some}

module _ {ℓ κ} {K : Type ℓ} {V : Type κ} ⦃o : Ord K⦄ where
  unfoldable pub insert : K → V → List (K × V) → List (K × V)
  insert k v [] = (k, v) ∷ []
  insert k v ((j, w) ∷ m) =
      let later = (j, w) ∷ insert k v m in
      elim (o.cmp k j) [
        | Ordering.lt ↦ (k, v) ∷ (j, w) ∷ m
        | Ordering.eq ↦ (k, v) ∷ m
        | Ordering.gt ↦ later
      ]

  unfoldable pub get : K → List (K × V) → Option V
  get k [] = none
  get k ((j, w) ∷ m) = if cmp_eq k j then some w else get k m

  unfoldable pub remove : K → List (K × V) → List (K × V)
  remove k [] = []
  remove k ((j, w) ∷ m) = if cmp_eq k j then m else (j, w) ∷ remove k m

  abbrev pub contains_key : K → List (K × V) → Bool
  contains_key k m = is_some (get k m)

  unfoldable pub keys : List (K × V) → List K
  keys [] = []
  keys ((j, w) ∷ m) = j ∷ keys m

  unfoldable pub values : List (K × V) → List V
  values [] = []
  values ((j, w) ∷ m) = w ∷ values m

  abbrev pub IsSorted : List (K × V) → Type ℓ
  IsSorted [] = Unit
  IsSorted ((k, v) ∷ m) = All (λ p. k ≺ p.0) m × IsSorted m

  All-insert :
      (c k : K) (v : V) (m : List (K × V))
      → c ≺ k
      → All (λ p. c ≺ p.0) m
      → All (λ p. c ≺ p.0) (insert k v m)
  unfolding insert
  All-insert c k v [] p h = (p, tt)
  All-insert c k v ((j, w) ∷ m) p (q, h) = ground (arith, All-insert c k v m p h)

  All-lt_trans : (a b : K) (m : List (K × V)) → a ≺ b → All (λ p. b ≺ p.0) m → All (λ p. a ≺ p.0) m
  All-lt_trans a b m h = All-map (λ p k. o.lt_trans a b p.0 h k) m

  pub insert-IsSorted : (k : K) (v : V) (m : List (K × V)) → IsSorted m → IsSorted (insert k v m)
  unfolding insert
  insert-IsSorted k v [] h = (tt, tt)
  insert-IsSorted k v ((j, w) ∷ m) (h, s) = elim (Ordering-cases (o.cmp k j)) [
    | inl lt ↦ ground (arith, All-lt_trans k j m lt h)
    | inr (inl eq) ↦ let h' : All (λ p. k ≺ p.0) m = rw (o.eq_of_cmp k j eq) h in ground arith
    | inr (inr gt) ↦
        ground (arith, insert-IsSorted k v m s, All-insert j k v m (o.lt_of_gt k j gt) h)
  ]

  pub get-insert :
      (k j : K) (v : V) (m : List (K × V))
      → get j (insert k v m) ≡ (if cmp_eq j k then some v else get j m)
  unfolding get insert
  get-insert k j v [] = refl
  get-insert k j v ((i, w) ∷ m) =
      ground (arith, get-insert k j v m, o.eq_of_cmp k i, o.eq_of_cmp j k)

  pub get-insert_self : (k : K) (v : V) (m : List (K × V)) → get k (insert k v m) ≡ some v
  get-insert_self k v m = ground (arith, get-insert k k v m, o.cmp_refl k)

  pub get-insert_other :
      (k j : K) (v : V) (m : List (K × V)) → cmp_eq j k ≡ false → get j (insert k v m) ≡ get j m
  get-insert_other k j v m h = ground (arith, get-insert k j v m)

  pub get_of_lt : (k : K) (m : List (K × V)) → All (λ p. k ≺ p.0) m → get k m ≡ none
  unfolding get
  get_of_lt k [] h = refl
  get_of_lt k ((j, w) ∷ m) (h, hs) = ground (arith, get_of_lt k m hs)

  pub get-remove :
      (k j : K) (m : List (K × V))
      → IsSorted m
      → get j (remove k m) ≡ (if cmp_eq j k then none else get j m)
  unfolding get remove
  get-remove k j [] h = ground arith
  get-remove k j ((i, w) ∷ m) (h, s) =
      ground
        (arith, get-remove k j m s, get_of_lt i m h, o.eq_of_cmp k i, o.eq_of_cmp j k, o.cmp_refl i)

  All-remove : (c k : K) (m : List (K × V)) → All (λ p. c ≺ p.0) m → All (λ p. c ≺ p.0) (remove k m)
  unfolding remove
  All-remove c k [] h = h
  All-remove c k ((j, w) ∷ m) (p, h) = ground (arith, All-remove c k m h)

  pub remove-IsSorted : (k : K) (m : List (K × V)) → IsSorted m → IsSorted (remove k m)
  unfolding remove
  remove-IsSorted k [] h = h
  remove-IsSorted k ((j, w) ∷ m) (h, s) = ground (arith, remove-IsSorted k m s, All-remove j k m h)

  pub get-remove_other :
      (k j : K) (m : List (K × V)) → IsSorted m → cmp_eq j k ≡ false → get j (remove k m) ≡ get j m
  get-remove_other k j m s h = ground (arith, get-remove k j m s)

  get_cons :
      (k j : K) (v : V) (m : List (K × V))
      → get k ((j, v) ∷ m) ≡ (if cmp_eq k j then some v else get k m)
  unfolding get
  get_cons k j v m = refl

  get-nil : (k : K) → get k [] ≡ none
  unfolding get
  get-nil k = refl

  get_tail :
      (c k : K) (v w : V) (m n : List (K × V))
      → All (λ p. k ≺ p.0) m
      → All (λ p. k ≺ p.0) n
      → get c ((k, v) ∷ m) ≡ get c ((k, w) ∷ n)
      → get c m ≡ get c n
  unfolding get
  get_tail c k v w m n hm hn e = elim (Bool-cases (cmp_eq c k)) [
    | inl same ↦ rw (eq_of_cmp_eq c k same, get_of_lt k m hm, get_of_lt k n hn)
    | inr other ↦ ground arith
  ]

  -- A map is determined by its lookups.
  pub eq_of_gets :
      (m n : List (K × V)) → IsSorted m → IsSorted n → ((c : K) → get c m ≡ get c n) → m ≡ n
  eq_of_gets [] [] hm hn e = refl
  eq_of_gets [] ((k, v) ∷ n) hm hn e =
      ground (arith, e k, get-nil k, get_cons k k v n, o.cmp_refl k)
  eq_of_gets ((k, v) ∷ m) [] hm hn e =
      ground (arith, e k, get-nil k, get_cons k k v m, o.cmp_refl k)
  eq_of_gets ((k, v) ∷ m) ((j, w) ∷ n) (km, hm) (jn, hn) e = elim (Ordering-cases (o.cmp k j)) [
    | inl lt ↦ ground (
      arith,
      e k,
      get_cons k k v m,
      o.cmp_refl k,
      get_of_lt k ((j, w) ∷ n) (lt, All-lt_trans k j n lt jn),
    )
    | inr (inl same) ↦
        let p = o.eq_of_cmp k j same in
        let jn' : All (λ q. k ≺ q.0) n = rw p jn in
        let e' : (c : K) → get c ((k, v) ∷ m) ≡ get c ((k, w) ∷ n) = λ c. rw (← p) at (e c) in
        let tails : m ≡ n = eq_of_gets m n hm hn (λ c. get_tail c k v w m n km jn' (e' c)) in
        let heads : v ≡ w =
          ground (arith, e' k, get_cons k k v m, get_cons k k w n, o.cmp_refl k) in
        cc
    | inr (inr gt) ↦
        let lt = o.lt_of_gt k j gt in
        ground (
          arith,
          e j,
          get_cons j j w n,
          o.cmp_refl j,
          get_of_lt j ((k, v) ∷ m) (lt, All-lt_trans j k m lt km),
        )
  ]

  -- In a sorted map the keys in front come before those behind.
  IsSorted-before :
      (m : List (K × V)) (k : K) (v : V) (n : List (K × V))
      → IsSorted (m ++ (k, v) ∷ n)
      → All (λ p. p.0 ≺ k) m
  IsSorted-before [] k v n h = tt
  IsSorted-before ((j, w) ∷ m) k v n (h, s) =
      ((All-append_right _ m ((k, v) ∷ n) h).0, IsSorted-before m k v n s)

  insert_last :
      (k : K) (v : V) (m : List (K × V)) → All (λ p. p.0 ≺ k) m → insert k v m ≡ m ++ (k, v) ∷ []
  unfolding insert
  insert_last k v [] h = refl
  insert_last k v ((j, w) ∷ m) (p, h) = ground (arith, insert_last k v m h, gt_of_lt o j k)

  -- Inserting the entries of a sorted map in order appends each of them.
  pub insert-IsSorted_last :
      (m : List (K × V)) (k : K) (v : V) (n : List (K × V))
      → IsSorted (m ++ (k, v) ∷ n)
      → insert k v m ≡ m ++ (k, v) ∷ []
  insert-IsSorted_last m k v n h = insert_last k v m (IsSorted-before m k v n h)
