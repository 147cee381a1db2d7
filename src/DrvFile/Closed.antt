-- ===== src/DrvFile/Closed.antt =====
-- `read_closure`: what it returns is closed, and the loop ends.
use nix2rdf.Base.{
  ℕ, zero, suc, ◌≡◌, refl, sym, ◌∙◌, inl, inr, true, some, List, [], ◌∷◌, Str, Bool-cases,
}
use mathlib.Core.Path.{subst}
use nix2rdf.Base.Map
use nix2rdf.Base.Order.{str_ord}
use nix2rdf.Base.Set
use nix2rdf.Base.Set.{member, cmp_eq, eq_of_cmp_eq, cmp_eq_self}
use nix2rdf.DrvFile.Parser.{Result, ok, err, panicked, out_of_fuel, ◌>>=◌}
use nix2rdf.Nix.Model.{DrvInfo}
use nix2rdf.DrvFile.Closure.{
  Drvs, close, Pending, IsPartial, go_on, close_skip, close_read, Pending-skip, Pending-read,
  IsPartial-skip, IsPartial-read,
}

module _ (read : Str → Result DrvInfo) where
  -- What the closure promises.
  pub record IsClosure (roots : List Str) (out : Drvs) : Type 0 where
    pub sound : (p : Str) (d : DrvInfo) → Map.get p out ≡ some d → read p ≡ ok d
    pub closed :
        (p : Str) (d : DrvInfo) (dep : Str)
        → Map.get p out ≡ some d
        → member dep (Map.keys d.input_drvs) ≡ true
        → Map.contains_key dep out ≡ true
    pub rooted : (p : Str) → member p roots ≡ true → Map.contains_key p out ≡ true

  bind_ok :
      {A B : Type 0} (r : Result A) (f : A → Result B) (b : B)
      → (r >>= f) ≡ ok b
      → (a : A) × (r ≡ ok a) × (f a ≡ ok b)
  bind_ok (ok a) f b h = (a, refl, h)
  bind_ok (err e) f b h = absurd (cc h)
  bind_ok panicked f b h = absurd (cc h)
  bind_ok out_of_fuel f b h = absurd (cc h)

  abbrev pub Completes : List Str → Drvs → Drvs → Type 0
  Completes stack out result =
      IsPartial read [] result
      × ((q : Str) → Pending read stack out q → Map.contains_key q result ≡ true)

  pub close_end : (f : ℕ) (out : Drvs) → close read (suc f) [] out ≡ ok out
  unfolding close
  close_end f out = refl

  close_no_fuel : (stack : List Str) (out : Drvs) → close read zero stack out ≡ out_of_fuel
  unfolding close
  close_no_fuel stack out = refl

  pub Pending-nil : (out : Drvs) (q : Str) → Pending read [] out q → Map.contains_key q out ≡ true
  Pending-nil out q (inl h) = h
  Pending-nil out q (inr h) = absurd (cc (Set.member-nil q))

  pub close-Completes :
      (f : ℕ) (stack : List Str) (out result : Drvs)
      → IsPartial read stack out
      → close read f stack out ≡ ok result
      → Completes stack out result
  close-Completes zero stack out result w e = absurd (cc (close_no_fuel stack out))
  close-Completes (suc f) [] out result w e =
      let same : out ≡ result = cc (close_end f out) in
      subst (Completes [] out) same (w, Pending-nil out)
  close-Completes (suc f) (p ∷ stack) out result w e = elim (Bool-cases (Map.contains_key p out)) [
    | inl there ↦
        let (v, k) =
          close-Completes f stack out result (IsPartial-skip read p stack out there w)
            (sym (close_skip read f p stack out there) ∙ e) in
        (v, λ q h. k q (Pending-skip read p q stack out there h))
    | inr missing ↦
        let (d, r, g) =
          bind_ok (read p) (go_on read f p stack out) result
            (sym (close_read read f p stack out missing) ∙ e) in
        let (v, k) = close-Completes f _ _ result (IsPartial-read read p d stack out r w) g in
        (v, λ q h. k q (Pending-read read p q d (Map.keys d.input_drvs) stack out h))
  ]
