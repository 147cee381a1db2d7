-- ===== src/Reason/Collect.antt =====
-- `gc_derived` of reason.rs on the files of the store; the query index that it also tells is not
-- modelled. A removal fails where `fails` says so.
use mathlib.Core.Path.{subst}
use nix2rdf.Base.{
  inr, inl, ℕ, zero, suc, ◌≡◌, refl, sym, ap, ◌∙◌, Bool, true, false, not, ◌&&◌, ◌||◌, Option, none,
  List, [], ◌∷◌, Str, codes, if◌then◌else◌, arith, Bool-cases, any, str_eq,
}
use nix2rdf.Base.Map
use nix2rdf.Base.Order.{str_ord, list_ord}
use nix2rdf.Base.Paths.{FilePath, join, starts_with}
use nix2rdf.Base.Set.{member, cmp_eq, eq_of_cmp_eq}
use nix2rdf.Store.Files.{Files, Result, Error, is_fragment_file, fragment_paths_under, relative}
use nix2rdf.Store.Listing.{member-select}

-- `components().nth(1)`, or the empty text.
unfoldable pub second : FilePath → Str
second (a ∷ b ∷ p) = b
second _ = []

unfoldable pub ruleset_of : FilePath → FilePath → Str
ruleset_of root path = second (relative root path)

module _ (root : FilePath) (keep_rulesets : List Str) (fails : FilePath → Bool) where
  unfoldable pub is_kept : FilePath → Bool
  is_kept path = any (λ k. str_eq k (ruleset_of root path)) keep_rulesets

  -- The loop over the files of one directory.
  unfoldable pub remove_stale : List FilePath → ℕ → Files → Files × Result ℕ
  remove_stale [] removed fs = (fs, Result.ok removed)
  remove_stale (p ∷ ps) removed fs =
      let skip = remove_stale ps removed fs in
      let next = remove_stale ps (suc removed) (Map.remove p fs) in
      if is_kept p then skip else if fails p then (fs, Result.err Error.io) else next

  unfoldable pub remove_runs : Files × Result ℕ → Files × Result ℕ
  remove_runs (fs, Result.err e) = (fs, Result.err e)
  remove_runs (fs, Result.ok removed) =
      remove_stale (fragment_paths_under root (codes "runs") fs) removed fs

  unfoldable pub gc_derived : Files → Files × Result ℕ
  gc_derived fs =
      remove_runs (remove_stale (fragment_paths_under root (codes "derived") fs) zero fs)

  remove_stale_kept :
      (p : FilePath) (ps : List FilePath) (n : ℕ) (fs : Files)
      → is_kept p ≡ true
      → remove_stale (p ∷ ps) n fs ≡ remove_stale ps n fs
  unfolding remove_stale
  remove_stale_kept p ps n fs h = ground arith

  remove_stale_fails :
      (p : FilePath) (ps : List FilePath) (n : ℕ) (fs : Files)
      → is_kept p ≡ false
      → fails p ≡ true
      → remove_stale (p ∷ ps) n fs ≡ (fs, Result.err Error.io)
  unfolding remove_stale
  remove_stale_fails p ps n fs h k = ground arith

  remove_stale_removed :
      (p : FilePath) (ps : List FilePath) (n : ℕ) (fs : Files)
      → is_kept p ≡ false
      → fails p ≡ false
      → remove_stale (p ∷ ps) n fs ≡ remove_stale ps (suc n) (Map.remove p fs)
  unfolding remove_stale
  remove_stale_removed p ps n fs h k = ground arith

  is_kept_of : (p q : FilePath) → cmp_eq q p ≡ true → is_kept q ≡ is_kept p
  is_kept_of p q h = ap is_kept (eq_of_cmp_eq q p h)

  -- What becomes of a file when the files `ps` were gone through.
  abbrev without : List FilePath → FilePath → Files → Option Str
  without ps q fs = if member q ps && not (is_kept q) then none else Map.get q fs

  without_kept :
      (p : FilePath) (ps : List FilePath) (q : FilePath) (fs : Files)
      → is_kept p ≡ true
      → without ps q fs ≡ without (p ∷ ps) q fs
  unfolding member
  without_kept p ps q fs h = ground (arith, is_kept_of p q)

  without_removed :
      (p : FilePath) (ps : List FilePath) (q : FilePath) (fs : Files)
      → Map.IsSorted fs
      → is_kept p ≡ false
      → without ps q (Map.remove p fs) ≡ without (p ∷ ps) q fs
  unfolding member
  without_removed p ps q fs s h = ground (arith, is_kept_of p q, Map.get-remove p q fs s)

  abbrev Removes : List FilePath → FilePath → Files → Files × Result ℕ → Type 0
  Removes ps q fs r = Map.IsSorted r.0 × (Map.get q r.0 ≡ without ps q fs)

  remove_stale_get :
      (ps : List FilePath) (n : ℕ) (fs : Files) (m : ℕ) (q : FilePath)
      → Map.IsSorted fs
      → (remove_stale ps n fs).1 ≡ Result.ok m
      → Removes ps q fs (remove_stale ps n fs)
  unfolding remove_stale member
  remove_stale_get [] n fs m q s h = (s, refl)
  remove_stale_get (p ∷ ps) n fs m q s h = elim (Bool-cases (is_kept p)) [
    | inl kept ↦
        let e = remove_stale_kept p ps n fs kept in
        let (t, g) = remove_stale_get ps n fs m q s (ap (λ r. r.1) (sym e) ∙ h) in
        subst (Removes (p ∷ ps) q fs) (sym e) (t, g ∙ without_kept p ps q fs kept)
    | inr stale ↦ elim (Bool-cases (fails p)) [
      | inl failed ↦ absurd (cc (ap (λ r. r.1) (remove_stale_fails p ps n fs stale failed)))
      | inr fine ↦
          let e = remove_stale_removed p ps n fs stale fine in
          let (t, g) =
            remove_stale_get ps (suc n) (Map.remove p fs) m q (Map.remove-IsSorted p fs s)
              (ap (λ r. r.1) (sym e) ∙ h) in
          subst (Removes (p ∷ ps) q fs) (sym e) (t, g ∙ without_removed p ps q fs s stale)
    ]
  ]

  unfoldable pub is_derived : FilePath → Bool
  is_derived q =
      (starts_with (join root (codes "derived")) q && is_fragment_file q)
      || (starts_with (join root (codes "runs")) q && is_fragment_file q)

  remove_runs_ok :
      (r : Files × Result ℕ) (m : ℕ)
      → (remove_runs r).1 ≡ Result.ok m
      → (k : ℕ) × (r.1 ≡ Result.ok k)
        × (remove_runs r ≡ remove_stale (fragment_paths_under root (codes "runs") r.0) k r.0)
  unfolding remove_runs
  remove_runs_ok (fs, Result.ok k) m h = (k, refl, refl)
  remove_runs_ok (fs, Result.err e) m h = absurd (cc h)

  without_both :
      (fs middle : Files) (q : FilePath)
      → Map.get q middle ≡ without (fragment_paths_under root (codes "derived") fs) q fs
      → without (fragment_paths_under root (codes "runs") middle) q middle
        ≡ (if is_derived q && not (is_kept q) then none else Map.get q fs)
  unfolding fragment_paths_under is_derived
  without_both fs middle q g = ground (
    arith,
    g,
    member-select (λ p. starts_with (join root (codes "derived")) p && is_fragment_file p) q fs,
    member-select (λ p. starts_with (join root (codes "runs")) p && is_fragment_file p) q middle,
  )

  -- A successful collection removes the derived fragments and the records of runs whose rule set is
  -- not kept, and changes no other file. The map of files is sorted.
  pub gc_derived-get :
      (fs : Files) (m : ℕ) (q : FilePath)
      → Map.IsSorted fs
      → (gc_derived fs).1 ≡ Result.ok m
      → Map.get q (gc_derived fs).0
        ≡ (if is_derived q && not (is_kept q) then none else Map.get q fs)
  unfolding gc_derived
  gc_derived-get fs m q s h =
      let ps = fragment_paths_under root (codes "derived") fs in
      let r = remove_stale ps zero fs in
      let (k, e, f) = remove_runs_ok r m h in
      let (t, g) = remove_stale_get ps zero fs k q s e in
      let rs = fragment_paths_under root (codes "runs") r.0 in
      let (t', g') = remove_stale_get rs k r.0 m q t (ap (λ x. x.1) (sym f) ∙ h) in
      ap (λ x. Map.get q x.0) f ∙ g' ∙ without_both fs r.0 q g
