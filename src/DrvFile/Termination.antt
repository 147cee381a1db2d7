-- ===== src/DrvFile/Termination.antt =====
-- `read_closure` with the fuel that its loop needs, and what it returns.
use mathlib.Core.List.{reverse, reverse-append}
use nix2rdf.Base.{
  ℕ, zero, suc, ◌+◌, ◌≡◌, refl, sym, ap, ◌∙◌, inl, inr, true, false, ◌||◌, some, List, [], ◌∷◌,
  ◌++◌, Str, if◌then◌else◌, arith, Bool-cases, Option-cases, length,
}
use nix2rdf.Base.Map
use nix2rdf.Base.Order.{str_ord}
use nix2rdf.Base.Set.{member, cmp_eq, eq_of_cmp_eq, cmp_eq_self}
use nix2rdf.DrvFile.Parser.{Result, ok, err, panicked, out_of_fuel, ◌>>=◌}
use nix2rdf.Nix.Model.{DrvInfo}
use nix2rdf.Base.{if◌then◌else◌, inr, inl, ◌+◌, Option-cases, suc, arith, ℕ, Str, ◌≤◌, ◌<◌, ◌≢◌}
use nix2rdf.DrvFile.Closure.{
  Drvs, read_drv_file, push_missing, close, IsPartial, go_on, close_skip, close_read,
  contains-insert,
}
use nix2rdf.DrvFile.Derivation.Total.{parse_drv-ne-out_of_fuel}
use nix2rdf.DrvFile.Closed.{Pending-nil, IsClosure, close-Completes, close_end}

module _ (read : Str → Result DrvInfo) where
  -- How many paths a derivation pushes at most.
  unfoldable pub weight : Str → ℕ
  weight p = elim (read p) [ ok d ↦ length (Map.keys d.input_drvs) | _ ↦ 0 ]

  -- What the files that were not read push at most.
  unfoldable pub unread : Drvs → List (Str × Str) → ℕ
  unread out [] = 0
  unread out ((p, text) ∷ files) =
      let rest = unread out files in if Map.contains_key p out then rest else weight p + rest

  unread-insert_le :
      (p : Str) (d : DrvInfo) (out : Drvs) (files : List (Str × Str))
      → unread (Map.insert p d out) files ≤ unread out files
  unfolding unread
  unread-insert_le p d out [] = omega arith
  unread-insert_le p d out ((q, text) ∷ files) =
      ground (arith, unread-insert_le p d out files, contains-insert read p q d out)

  unread-insert :
      (p : Str) (d : DrvInfo) (out : Drvs) (files : List (Str × Str)) (text : Str)
      → Map.get p files ≡ some text
      → Map.contains_key p out ≡ false
      → unread (Map.insert p d out) files + weight p ≤ unread out files
  unfolding unread Map.get
  unread-insert p d out [] text g h = absurd (cc g)
  unread-insert p d out ((q, t) ∷ files) text g h = elim (Bool-cases (cmp_eq p q)) [
    | inl same ↦
        let e = eq_of_cmp_eq p q same in
        let new : Map.contains_key q out ≡ false = ap (λ x. Map.contains_key x out) (sym e) ∙ h in
        let old : Map.contains_key q (Map.insert p d out) ≡ true =
          ground (arith, contains-insert read p q d out, ap (λ x. cmp_eq x p) e, cmp_eq_self p) in
        let w : weight q ≡ weight p = ap weight (sym e) in
        ground (arith, unread-insert_le p d out files)
    | inr other ↦ ground (arith, unread-insert p d out files text, contains-insert read p q d out)
  ]

  length-push_missing :
      (out : Drvs) (deps stack : List Str)
      → length (push_missing out deps stack) ≤ length deps + length stack
  unfolding push_missing
  length-push_missing out [] stack = omega arith
  length-push_missing out (dep ∷ deps) stack =
      ground (arith, length-push_missing out deps stack, length-push_missing out deps (dep ∷ stack))

  weight_ok : (p : Str) (d : DrvInfo) → read p ≡ ok d → weight p ≡ length (Map.keys d.input_drvs)
  unfolding weight
  weight_ok p d h = ground arith

  module _ (files : List (Str × Str)) (total : (p : Str) → read p ≢ out_of_fuel)
      (known : (p : Str) (d : DrvInfo)
        → read p ≡ ok d
        → (t : Str) × (Map.get p files ≡ some t)) where
    bind-ne :
        (r : Result DrvInfo) (f : DrvInfo → Result Drvs)
        → r ≢ out_of_fuel
        → ((d : DrvInfo) → r ≡ ok d → f d ≢ out_of_fuel)
        → (r >>= f) ≢ out_of_fuel
    bind-ne (ok d) f n k e = k d refl e
    bind-ne (err x) f n k e = cc e
    bind-ne panicked f n k e = cc e
    bind-ne out_of_fuel f n k e = n refl

    pub close-ne-out_of_fuel :
        (f : ℕ) (stack : List Str) (out : Drvs)
        → length stack + unread out files < f
        → close read f stack out ≢ out_of_fuel
    close-ne-out_of_fuel zero stack out h e = omega arith
    close-ne-out_of_fuel (suc f) [] out h e = cc (close_end read f out)
    close-ne-out_of_fuel (suc f) (p ∷ stack) out h e = elim (Bool-cases (Map.contains_key p out)) [
      | inl there ↦
          close-ne-out_of_fuel f stack out (omega arith)
            (sym (close_skip read f p stack out there) ∙ e)
      | inr missing ↦
          bind-ne (read p) (go_on read f p stack out) (total p)
            (λ d r.
              let (t, g) = known p d r in
              let deps = Map.keys d.input_drvs in
              close-ne-out_of_fuel f (push_missing out deps stack) (Map.insert p d out) (
                omega (
                  arith,
                  length-push_missing out deps stack,
                  unread-insert p d out files t g missing,
                  weight_ok p d r,
                )))
            (sym (close_read read f p stack out missing) ∙ e)
    ]

-- One step for each root and for each input of a file, and one more.
unfoldable pub read_closure : List (Str × Str) → List Str → Result Drvs
read_closure files roots =
    let read = read_drv_file files in
    close read (suc (length (reverse roots) + unread read [] files)) (reverse roots) []

read_drv_file-ne-out_of_fuel :
    (files : List (Str × Str)) (p : Str) → read_drv_file files p ≢ out_of_fuel
unfolding read_drv_file
read_drv_file-ne-out_of_fuel files p h = elim (Option-cases (Map.get p files)) [
  | inl missing ↦ absurd (ground arith)
  | inr (text, g) ↦ parse_drv-ne-out_of_fuel p text (ground arith)
]

read_drv_file-known :
    (files : List (Str × Str)) (p : Str) (d : DrvInfo)
    → read_drv_file files p ≡ ok d
    → (t : Str) × (Map.get p files ≡ some t)
unfolding read_drv_file
read_drv_file-known files p d h = elim (Option-cases (Map.get p files)) [
  | inl missing ↦ absurd (ground arith)
  | inr found ↦ found
]

-- `read_closure` returns, fails or panics: the fuel of the model is enough.
pub read_closure-ne-out_of_fuel :
    (files : List (Str × Str)) (roots : List Str) → read_closure files roots ≢ out_of_fuel
unfolding read_closure
read_closure-ne-out_of_fuel files roots =
    close-ne-out_of_fuel (read_drv_file files) files (read_drv_file-ne-out_of_fuel files)
      (read_drv_file-known files) _ (reverse roots) [] (omega arith)

member-append : (c : Str) (xs ys : List Str) → member c (xs ++ ys) ≡ (member c xs || member c ys)
unfolding member
member-append c [] ys = refl
member-append c (x ∷ xs) ys = ground (arith, member-append c xs ys)

member-reverse : (c : Str) (xs : List Str) → member c (reverse xs) ≡ member c xs
unfolding member
member-reverse c [] = refl
member-reverse c (x ∷ xs) =
    ap (member c) (reverse-append (x ∷ []) xs)
    ∙ ground (arith, member-append c (reverse xs) (x ∷ []), member-reverse c xs)

start-IsPartial : (read : Str → Result DrvInfo) (stack : List Str) → IsPartial read stack []
unfolding Map.get
start-IsPartial read stack = record {
  sound = λ p d g. absurd (cc g);
  pending = λ p d dep g m. absurd (cc g);
}

-- Where `read_closure` succeeds, its result has the roots, and with a derivation all its inputs;
-- each is what its file says.
pub read_closure-IsClosure :
    (files : List (Str × Str)) (roots : List Str) (out : Drvs)
    → read_closure files roots ≡ ok out
    → IsClosure (read_drv_file files) roots out
unfolding read_closure
read_closure-IsClosure files roots out e =
    let read = read_drv_file files in
    let (w, k) =
      close-Completes read _ (reverse roots) [] out (start-IsPartial read (reverse roots)) e in
    record {
      sound = w.sound;
      closed = λ p d dep g m. Pending-nil read out dep (w.pending p d dep g m);
      rooted = λ p h. k p (inr (member-reverse p roots ∙ h));
    }
