-- ===== src/Packs/Visit.antt =====
-- `visit` meets its contract, whatever the fuel.
use nix2rdf.Base.{
  All-append, ℕ, zero, suc, ◌≡◌, inl, inr, refl, ◌∙◌, sym, ap, true, false, none, some, List, [],
  ◌∷◌, ◌++◌, Str, arith, Bool-cases, Option-cases,
}
use nix2rdf.Base.Map
use nix2rdf.Base.Order.{str_ord}
use nix2rdf.Base.Set
use nix2rdf.Base.Sort
use nix2rdf.Base.Set.{member, cmp_eq}
use nix2rdf.Packs.Model.{Pack, name}
use nix2rdf.Packs.Order.{member-names_append, names, IsOrdered-append}
use nix2rdf.Packs.Resolve.{
  State, enter, leave, visit, visit_all, Result, ok, err, out_of_fuel, cycle, unknown, ◌>>=◌,
}
use nix2rdf.Packs.Contract.{
  DependsOn, direct, through, IsConsistent, Extends, open_count-insert_lt, IsShort, Meets, Visits,
  Extends-refl, AllDone, Asked, visit_all-Meets,
}

module _ (packs : List (Str × Pack)) where
  visit_no_fuel : (n : Str) (s : State) → visit packs zero n s ≡ out_of_fuel
  unfolding visit
  visit_no_fuel n s = refl

  visit_done :
      (f : ℕ) (n : Str) (s : State) → member n s.done ≡ true → visit packs (suc f) n s ≡ ok s
  unfolding visit
  visit_done f n s h = ground arith

  visit_cycle :
      (f : ℕ) (n : Str) (s : State)
      → member n s.done ≡ false
      → member n s.visiting ≡ true
      → visit packs (suc f) n s ≡ err (cycle n)
  unfolding visit
  visit_cycle f n s h k = ground arith

  visit_unknown :
      (f : ℕ) (n : Str) (s : State)
      → member n s.done ≡ false
      → member n s.visiting ≡ false
      → Map.get n packs ≡ none
      → visit packs (suc f) n s ≡ err (unknown n)
  unfolding visit
  visit_unknown f n s h k g = ground arith

  abbrev pub visit_pack : ℕ → Str → Pack → State → Result State
  visit_pack f n p s =
      visit_all (visit packs f) (Sort.sort p.manifest.depends_on) (enter n s) >>= λ t.
      ok (leave n p t)

  pub visit_known :
      (f : ℕ) (n : Str) (s : State) (p : Pack)
      → member n s.done ≡ false
      → member n s.visiting ≡ false
      → Map.get n packs ≡ some p
      → visit packs (suc f) n s ≡ visit_pack f n p s
  unfolding visit
  visit_known f n s p h k g = ground arith

  enter-IsConsistent : (n : Str) (s : State) → IsConsistent packs s → IsConsistent packs (enter n s)
  enter-IsConsistent n s c = record {
    ordered = c.ordered;
    done_names = c.done_names;
    visiting_sorted = Set.insert-IsSorted n s.visiting c.visiting_sorted;
    known = c.known;
  }

  Leaves : Str → State → State → Type 0
  Leaves n s t = Extends packs s t × (member n t.done ≡ true)

  done_names_last :
      (n : Str) (p : Pack) (t : State) (k : Str)
      → name p ≡ n
      → member k t.done ≡ member k (names t.order)
      → member k (Set.insert n t.done) ≡ member k (names (t.order ++ p ∷ []))
  unfolding member
  done_names_last n p t k e h =
      ground (arith, Set.member-insert k n t.done, member-names_append k t.order p, e)

  leave-IsConsistent :
      (n : Str) (p : Pack) (t : State)
      → name p ≡ n
      → Map.get n packs ≡ some p
      → IsConsistent packs t
      → ((d : Str) → member d p.manifest.depends_on ≡ true → member d t.done ≡ true)
      → member n t.done ≡ false
      → IsConsistent packs (leave n p t)
  leave-IsConsistent n p t e g c deps new = record {
    ordered =
        IsOrdered-append [] t.order p t.done (λ k. ground (arith, c.done_names k, Set.member-nil k))
          c.ordered (deps, rw e new);
    done_names = λ k. done_names_last n p t k e (c.done_names k);
    visiting_sorted = Set.remove-IsSorted n t.visiting c.visiting_sorted;
    known = All-append _ t.order (p ∷ []) c.known (rw e g, tt);
  }

  left_visiting :
      (n : Str) (s t : State) (v : Str)
      → Extends packs (enter n s) t
      → member n s.visiting ≡ false
      → member v (Set.remove n t.visiting) ≡ member v s.visiting
  left_visiting n s t v x out = elim (Bool-cases (cmp_eq v n)) [
    | inl same ↦
        let q = Set.eq_of_cmp_eq v n same in
        ground (
          arith,
          Set.member-remove v n t.visiting x.consistent.visiting_sorted,
          ap (λ a. member a s.visiting) q,
        )
    | inr other ↦ ground (
      arith,
      Set.member-remove v n t.visiting x.consistent.visiting_sorted,
      x.same_visiting v,
      Set.member-insert v n s.visiting,
    )
  ]

  left_done :
      (n : Str) (s t : State) (v : Str)
      → Extends packs (enter n s) t
      → member n s.visiting ≡ false
      → member v s.visiting ≡ true
      → member v (Set.insert n t.done) ≡ member v s.done
  left_done n s t v x out h = elim (Bool-cases (cmp_eq v n)) [
    | inl same ↦ absurd (cc (ap (λ a. member a s.visiting) (Set.eq_of_cmp_eq v n same)))
    | inr other ↦
        ground (arith, Set.member-insert v n t.done, Set.member-insert v n s.visiting, x.not_done v)
  ]

  leave-Leaves :
      (n : Str) (p : Pack) (s t : State)
      → name p ≡ n
      → Map.get n packs ≡ some p
      → member n s.done ≡ false
      → member n s.visiting ≡ false
      → AllDone packs (Sort.sort p.manifest.depends_on) (enter n s) t
      → Leaves n s (leave n p t)
  unfolding Leaves
  leave-Leaves n p s t e g fresh out (x, k) =
      let entered : member n (Set.insert n s.visiting) ≡ true =
        ground (arith, Set.member-insert n n s.visiting, Set.cmp_eq_self n) in
      let new : member n t.done ≡ false = x.not_done n entered ∙ fresh in
      (
        record {
          consistent =
              leave-IsConsistent n p t e g x.consistent
                (λ d h. k d (Sort.member-sort d p.manifest.depends_on ∙ h)) new;
          keeps_done = λ d h. ground (arith, Set.member-insert d n t.done, x.keeps_done d h);
          same_visiting = λ v. left_visiting n s t v x out;
          not_done = λ v h. left_done n s t v x out h;
        },
        ground (arith, Set.member-insert n n t.done, Set.cmp_eq_self n),
      )

  deps_unknown :
      (n : Str) (p : Pack) (u : Str)
      → Map.get n packs ≡ some p
      → Asked packs (Sort.sort p.manifest.depends_on) u
      → DependsOn packs n u
  deps_unknown n p u g h = direct p g (sym (Sort.member-sort u p.manifest.depends_on) ∙ h)

  leave-Meets :
      (f : ℕ) (n : Str) (p : Pack) (s : State) (r : Result State)
      → name p ≡ n
      → Map.get n packs ≡ some p
      → member n s.done ≡ false
      → member n s.visiting ≡ false
      → Meets packs
          (IsShort packs f (enter n s))
          (AllDone packs (Sort.sort p.manifest.depends_on) (enter n s))
          (Asked packs (Sort.sort p.manifest.depends_on))
          r
      → Meets packs
          (IsShort packs (suc f) s)
          (Leaves n s)
          (λ a. a ≡ n)
          (r >>= λ t. ok (leave n p t))
  leave-Meets f n p s (ok t) e g fresh out m = leave-Leaves n p s t e g fresh out m
  leave-Meets f n p s (err (cycle u)) e g fresh out m = m
  leave-Meets f n p s (err (unknown u)) e g fresh out (no_pack, inl h) =
      (no_pack, inr (n, refl, deps_unknown n p u g h))
  leave-Meets f n p s (err (unknown u)) e g fresh out (no_pack, inr (a, h, d)) =
      (no_pack, inr (n, refl, through (deps_unknown n p a g h) d))
  leave-Meets f n p s out_of_fuel e g fresh out m =
      omega (arith, open_count-insert_lt n s.visiting packs p g out, m)

  entered_depend :
      (n : Str) (p : Pack) (s : State)
      → Map.get n packs ≡ some p
      → ((v : Str) → member v s.visiting ≡ true → DependsOn packs v n)
      → (v d : Str) → member v (Set.insert n s.visiting) ≡ true
      → Asked packs (Sort.sort p.manifest.depends_on) d
      → DependsOn packs v d
  entered_depend n p s g h v d m k = elim (Bool-cases (cmp_eq v n)) [
    | inl same ↦ rw (Set.eq_of_cmp_eq v n same) (deps_unknown n p d g k)
    | inr other ↦
        through (h v (ground (arith, Set.member-insert v n s.visiting))) (deps_unknown n p d g k)
  ]

  -- Keys are the names of their packs.
  abbrev pub IsNamed : Type 0
  IsNamed = (n : Str) (p : Pack) → Map.get n packs ≡ some p → name p ≡ n

  pub visit-Visits : (f : ℕ) → IsNamed → Visits packs f (visit packs f)
  unfolding Leaves
  visit-Visits zero w n s c h = rw (visit_no_fuel n s) (omega arith)
  visit-Visits (suc f) w n s c h = elim (Bool-cases (member n s.done)) [
    | inl old ↦ rw (visit_done f n s old) (Extends-refl packs s c, old)
    | inr fresh ↦ elim (Bool-cases (member n s.visiting)) [
      | inl on ↦ rw (visit_cycle f n s fresh on) (h n on)
      | inr out ↦ elim (Option-cases (Map.get n packs)) [
        | inl g ↦ rw (visit_unknown f n s fresh out g) (g, inl refl)
        | inr (p, g) ↦
            let deps = Sort.sort p.manifest.depends_on in
            rw (visit_known f n s p fresh out g) (
              leave-Meets f n p s _ (w n p g) g fresh out (
                visit_all-Meets packs f (visit packs f) deps (enter n s) (visit-Visits f w)
                  (enter-IsConsistent n s c) (entered_depend n p s g h)))
      ]
    ]
  ]
