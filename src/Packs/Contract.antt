-- ===== src/Packs/Contract.antt =====
-- What a call of `visit` guarantees, and that the loop over names keeps it: a pack is loaded behind
-- everything that it depends on, or a cycle or a name that is no pack is reported.
use nix2rdf.Base.{
  ◌<◌, ◌≤◌, ℕ, suc, ◌≡◌, ◌⊎◌, inl, inr, refl, ◌∙◌, sym, ap, true, false, none, some, List, [], ◌∷◌,
  Str, arith, All, Bool-cases, if◌then◌else◌,
}
use nix2rdf.Base.Map
use nix2rdf.Base.Order.{str_ord}
use nix2rdf.Base.Set
use nix2rdf.Base.Set.{member, cmp_eq}
use nix2rdf.Packs.Model.{Pack, name}
use nix2rdf.Packs.Order.{names, IsOrdered}
use nix2rdf.Packs.Resolve.{
  State, visit_all, Result, Error, ok, err, out_of_fuel, cycle, unknown, ◌>>=◌,
}

-- The packs that are not being visited.
unfoldable pub open_count : List Str → List (Str × Pack) → ℕ
open_count visiting [] = 0
open_count visiting ((n, p) ∷ packs) =
    let rest = open_count visiting packs in if member n visiting then rest else suc rest

open_count_congr :
    (s t : List Str) (packs : List (Str × Pack))
    → ((n : Str) → member n s ≡ member n t)
    → open_count s packs ≡ open_count t packs
unfolding open_count
open_count_congr s t [] e = refl
open_count_congr s t ((n, p) ∷ packs) e = ground (arith, e n, open_count_congr s t packs e)

open_count-insert_le :
    (n : Str) (s : List Str) (packs : List (Str × Pack))
    → open_count (Set.insert n s) packs ≤ open_count s packs
unfolding open_count
open_count-insert_le n s [] = omega arith
open_count-insert_le n s ((k, p) ∷ packs) =
    ground (arith, open_count-insert_le n s packs, Set.member-insert k n s)

-- A pack that begins to be visited is one fewer.
pub open_count-insert_lt :
    (n : Str) (s : List Str) (packs : List (Str × Pack)) (p : Pack)
    → Map.get n packs ≡ some p
    → member n s ≡ false
    → open_count (Set.insert n s) packs < open_count s packs
unfolding open_count Map.get
open_count-insert_lt n s [] p g h = absurd (cc g)
open_count-insert_lt n s ((k, q) ∷ packs) p g h = elim (Bool-cases (cmp_eq n k)) [
  | inl same ↦
      let e = Set.eq_of_cmp_eq n k same in
      let m : member k s ≡ false = rw (← e) h in
      let m' : member k (Set.insert n s) ≡ true =
        ground (arith, Set.member-insert k n s, ap (λ a. cmp_eq a n) e, Set.cmp_eq_self n) in
      ground (arith, open_count-insert_le n s packs)
  | inr other ↦ ground (arith, open_count-insert_lt n s packs p, Set.member-insert k n s)
]

module _ (packs : List (Str × Pack)) where
  -- One pack depends on another, at once or through others.
  pub data DependsOn : Str → Str → Type 0 where
    direct :
        {a b : Str} (p : Pack)
        → Map.get a packs ≡ some p
        → member b p.manifest.depends_on ≡ true
        → DependsOn a b
    through : {a b c : Str} → DependsOn a b → DependsOn b c → DependsOn a c

  pub record IsConsistent (s : State) : Type 0 where
    pub ordered : IsOrdered [] s.order
    pub done_names : (n : Str) → member n s.done ≡ member n (names s.order)
    pub visiting_sorted : Set.IsSorted s.visiting
    pub known : All (λ p. Map.get (name p) packs ≡ some p) s.order

  -- The state after a successful call.
  pub record Extends (s t : State) : Type 0 where
    pub consistent : IsConsistent t
    pub keeps_done : (n : Str) → member n s.done ≡ true → member n t.done ≡ true
    pub same_visiting : (n : Str) → member n t.visiting ≡ member n s.visiting
    pub not_done : (v : Str) → member v s.visiting ≡ true → member v t.done ≡ member v s.done

  -- An error is true: the cycle is one, and the unknown name is asked for and is no pack.
  abbrev pub IsTrueError : (Str → Type 0) → Error → Type 0
  IsTrueError asked (cycle n) = DependsOn n n
  IsTrueError asked (unknown n) =
      (Map.get n packs ≡ none) × (asked n ⊎ ((a : Str) × asked a × DependsOn a n))

  abbrev pub Meets : Type 0 → (State → Type 0) → (Str → Type 0) → Result State → Type 0
  Meets short after asked (ok t) = after t
  Meets short after asked (err e) = IsTrueError asked e
  Meets short after asked out_of_fuel = short

  -- The fuel is no more than the number of packs that are not being visited.
  abbrev pub IsShort : ℕ → State → Type 0
  IsShort f s = f ≤ open_count s.visiting packs

  -- What a call for one name guarantees, where the names in `visiting` depend on it.
  abbrev pub Visits : ℕ → (Str → State → Result State) → Type 0
  Visits f call =
      (n : Str) (s : State)
      → IsConsistent s
      → ((v : Str) → member v s.visiting ≡ true → DependsOn v n)
      → Meets (IsShort f s) (λ t. Extends s t × (member n t.done ≡ true)) (λ a. a ≡ n) (call n s)

  Meets-map :
      (H K : Type 0) (P Q : State → Type 0) (A B : Str → Type 0)
      → (H → K)
      → ((t : State) → P t → Q t)
      → ((n : Str) → A n → B n)
      → (r : Result State) → Meets H P A r
      → Meets K Q B r
  Meets-map H K P Q A B e f g (ok t) m = f t m
  Meets-map H K P Q A B e f g (err (cycle n)) m = m
  Meets-map H K P Q A B e f g (err (unknown n)) (none', inl h) = (none', inl (g n h))
  Meets-map H K P Q A B e f g (err (unknown n)) (none', inr (a, h, d)) = (none', inr (a, g a h, d))
  Meets-map H K P Q A B e f g out_of_fuel m = e m

  pub Extends-refl : (s : State) → IsConsistent s → Extends s s
  Extends-refl s c = record {
    consistent = c;
    keeps_done = λ n h. h;
    same_visiting = λ n. refl;
    not_done = λ v h. refl;
  }

  pub Extends-trans : (s t u : State) → Extends s t → Extends t u → Extends s u
  Extends-trans s t u e f = record {
    consistent = f.consistent;
    keeps_done = λ n h. f.keeps_done n (e.keeps_done n h);
    same_visiting = λ n. f.same_visiting n ∙ e.same_visiting n;
    not_done = λ v h. f.not_done v (e.same_visiting v ∙ h) ∙ e.not_done v h;
  }

  -- After the loop: every name is done.
  abbrev pub AllDone : List Str → State → State → Type 0
  AllDone ds s t = Extends s t × ((d : Str) → member d ds ≡ true → member d t.done ≡ true)

  abbrev pub Asked : List Str → Str → Type 0
  Asked ds a = member a ds ≡ true

  AllDone-cons :
      (d : Str) (ds : List Str) (s t u : State)
      → Extends s t
      → member d t.done ≡ true
      → AllDone ds t u
      → AllDone (d ∷ ds) s u
  unfolding member
  AllDone-cons d ds s t u e h (f, k) = (
    Extends-trans s t u e f,
    λ n m. elim (Bool-cases (cmp_eq n d)) [
      | inl same ↦ rw (Set.eq_of_cmp_eq n d same) (f.keeps_done d h)
      | inr other ↦ k n (ground arith)
    ],
  )

  Asked-head : (d : Str) (ds : List Str) (n : Str) → n ≡ d → Asked (d ∷ ds) n
  unfolding member
  Asked-head d ds n e = ground (arith, Set.cmp_eq_self d)

  Asked-tail : (d : Str) (ds : List Str) (n : Str) → Asked ds n → Asked (d ∷ ds) n
  unfolding member
  Asked-tail d ds n h = ground arith

  visit_all-step :
      (f : ℕ) (call : Str → State → Result State) (d : Str) (ds : List Str) (s : State)
      (r : Result State)
      → Meets (IsShort f s) (λ t. Extends s t × (member d t.done ≡ true)) (λ a. a ≡ d) r
      → ((t : State)
          → Extends s t
          → Meets (IsShort f t) (AllDone ds t) (Asked ds) (visit_all call ds t))
      → Meets (IsShort f s) (AllDone (d ∷ ds) s) (Asked (d ∷ ds)) (r >>= λ t. visit_all call ds t)
  visit_all-step f call d ds s (ok t) (e, h) next =
      Meets-map (IsShort f t) (IsShort f s) _ _ _ _
        (λ k.
          omega
            (arith, open_count_congr s.visiting t.visiting packs (λ n. sym (e.same_visiting n)), k))
        (λ u. AllDone-cons d ds s t u e h) (Asked-tail d ds) _ (next t e)
  visit_all-step f call d ds s (err (cycle n)) m next = m
  visit_all-step f call d ds s (err (unknown n)) m next =
      Meets-map (IsShort f s) (IsShort f s) (AllDone (d ∷ ds) s) (AllDone (d ∷ ds) s) (λ a. a ≡ d)
        (Asked (d ∷ ds)) (λ h. h) (λ u h. h) (Asked-head d ds) (err (unknown n)) m
  visit_all-step f call d ds s out_of_fuel m next = m

  pub visit_all-Meets :
      (f : ℕ) (call : Str → State → Result State) (ds : List Str) (s : State)
      → Visits f call
      → IsConsistent s
      → ((v d : Str) → member v s.visiting ≡ true → member d ds ≡ true → DependsOn v d)
      → Meets (IsShort f s) (AllDone ds s) (Asked ds) (visit_all call ds s)
  unfolding visit_all
  visit_all-Meets f call [] s v c h = (Extends-refl s c, λ d m. ground (arith, Set.member-nil d))
  visit_all-Meets f call (d ∷ ds) s v c h =
      visit_all-step f call d ds s (call d s) (v d s c (λ w m. h w d m (Asked-head d ds d refl)))
        λ t e.
          visit_all-Meets f call ds t v e.consistent
            (λ w n m k. h w n (sym (e.same_visiting w) ∙ m) (Asked-tail d ds n k))
