-- ===== src/DrvFile/Closure.antt =====
-- `read_drv_file` and the loop of `read_closure`: the derivations that the roots lead to. The files
-- are a map from paths to texts.
use nix2rdf.Base.{
  ℕ, zero, suc, ◌≡◌, ◌⊎◌, ap, ◌∙◌, inl, inr, true, false, ◌||◌, none, some, List, [], ◌∷◌, Str,
  if◌then◌else◌, arith, Bool-cases,
}
use nix2rdf.Base.Map
use nix2rdf.Base.Order.{str_ord}
use nix2rdf.Base.Set.{member, cmp_eq, eq_of_cmp_eq}
use nix2rdf.DrvFile.Derivation.{parse_drv}
use nix2rdf.DrvFile.Parser.{Result, ok, err, out_of_fuel, ◌>>=◌, malformed}
use nix2rdf.Nix.Model.{DrvInfo}

abbrev pub Drvs : Type 0
Drvs = List (Str × DrvInfo)

-- A file that cannot be read is an error.
unfoldable pub read_drv_file : List (Str × Str) → Str → Result DrvInfo
read_drv_file files path = elim (Map.get path files) [
  | none ↦ err malformed
  | some text ↦ parse_drv path text
]

-- The loop over the inputs of one derivation; the top of the stack stands first.
unfoldable pub push_missing : Drvs → List Str → List Str → List Str
push_missing out [] stack = stack
push_missing out (dep ∷ deps) stack =
    let skip = push_missing out deps stack in
    let push = push_missing out deps (dep ∷ stack) in
    if Map.contains_key dep out then skip else push

module _ (read : Str → Result DrvInfo) where
  unfoldable pub close : ℕ → List Str → Drvs → Result Drvs
  close zero stack out = out_of_fuel
  close (suc f) [] out = ok out
  close (suc f) (p ∷ stack) out =
      let skip = close f stack out in
      let next : DrvInfo → Result Drvs =
        λ d. close f (push_missing out (Map.keys d.input_drvs) stack) (Map.insert p d out) in
      if Map.contains_key p out then skip else read p >>= next

  -- A path is read or will be.
  abbrev pub Pending : List Str → Drvs → Str → Type 0
  Pending stack out p = (Map.contains_key p out ≡ true) ⊎ (member p stack ≡ true)

  pub record IsPartial (stack : List Str) (out : Drvs) : Type 0 where
    pub sound : (p : Str) (d : DrvInfo) → Map.get p out ≡ some d → read p ≡ ok d
    pub pending :
        (p : Str) (d : DrvInfo) (dep : Str)
        → Map.get p out ≡ some d
        → member dep (Map.keys d.input_drvs) ≡ true
        → Pending stack out dep

  push_missing-keeps :
      (out : Drvs) (deps stack : List Str) (p : Str)
      → member p stack ≡ true
      → member p (push_missing out deps stack) ≡ true
  unfolding push_missing member
  push_missing-keeps out [] stack p h = h
  push_missing-keeps out (dep ∷ deps) stack p h =
      ground
        (arith, push_missing-keeps out deps stack p, push_missing-keeps out deps (dep ∷ stack) p)

  pub push_missing-has :
      (out : Drvs) (deps stack : List Str) (p : Str)
      → member p deps ≡ true
      → (Map.contains_key p out || member p (push_missing out deps stack)) ≡ true
  unfolding push_missing member
  push_missing-has out [] stack p h = absurd (cc h)
  push_missing-has out (dep ∷ deps) stack p h = ground (
    arith,
    push_missing-has out deps stack p,
    push_missing-has out deps (dep ∷ stack) p,
    push_missing-keeps out deps (dep ∷ stack) p,
    eq_of_cmp_eq p dep,
  )

  pub close_skip :
      (f : ℕ) (p : Str) (stack : List Str) (out : Drvs)
      → Map.contains_key p out ≡ true
      → close (suc f) (p ∷ stack) out ≡ close f stack out
  unfolding close
  close_skip f p stack out h = ground arith

  abbrev pub go_on : ℕ → Str → List Str → Drvs → DrvInfo → Result Drvs
  go_on f p stack out d =
      close f (push_missing out (Map.keys d.input_drvs) stack) (Map.insert p d out)

  pub close_read :
      (f : ℕ) (p : Str) (stack : List Str) (out : Drvs)
      → Map.contains_key p out ≡ false
      → close (suc f) (p ∷ stack) out ≡ (read p >>= go_on f p stack out)
  unfolding close
  close_read f p stack out h = ground arith

  pub Pending-skip :
      (p q : Str) (stack : List Str) (out : Drvs)
      → Map.contains_key p out ≡ true
      → Pending (p ∷ stack) out q
      → Pending stack out q
  unfolding member
  Pending-skip p q stack out h (inl k) = inl k
  Pending-skip p q stack out h (inr k) = elim (Bool-cases (cmp_eq q p)) [
    | inl same ↦ inl (ap (λ x. Map.contains_key x out) (eq_of_cmp_eq q p same) ∙ h)
    | inr other ↦ inr (ground arith)
  ]

  pub contains-insert :
      (p q : Str) (d : DrvInfo) (out : Drvs)
      → Map.contains_key q (Map.insert p d out) ≡ (cmp_eq q p || Map.contains_key q out)
  contains-insert p q d out = ground (arith, Map.get-insert p q d out)

  pub Pending-read :
      (p q : Str) (d : DrvInfo) (deps stack : List Str) (out : Drvs)
      → Pending (p ∷ stack) out q
      → Pending (push_missing out deps stack) (Map.insert p d out) q
  unfolding member
  Pending-read p q d deps stack out (inl k) = inl (ground (arith, contains-insert p q d out))
  Pending-read p q d deps stack out (inr k) = elim (Bool-cases (cmp_eq q p)) [
    | inl same ↦ inl (ground (arith, contains-insert p q d out))
    | inr other ↦ inr (push_missing-keeps out deps stack q (ground arith))
  ]

  Pending-new :
      (p q : Str) (d : DrvInfo) (deps stack : List Str) (out : Drvs)
      → member q deps ≡ true
      → Pending (push_missing out deps stack) (Map.insert p d out) q
  Pending-new p q d deps stack out h = elim (Bool-cases (Map.contains_key q out)) [
    | inl there ↦ inl (ground (arith, contains-insert p q d out))
    | inr missing ↦ inr (ground (arith, push_missing-has out deps stack q h))
  ]

  pub IsPartial-skip :
      (p : Str) (stack : List Str) (out : Drvs)
      → Map.contains_key p out ≡ true
      → IsPartial (p ∷ stack) out
      → IsPartial stack out
  IsPartial-skip p stack out h w = record {
    sound = w.sound;
    pending = λ q d dep g m. Pending-skip p dep stack out h (w.pending q d dep g m);
  }

  some_eq : {A : Type 0} (a b : A) → some a ≡ some b → a ≡ b
  some_eq a b e = cc

  get-insert_cases :
      (p q : Str) (d e : DrvInfo) (out : Drvs)
      → Map.get q (Map.insert p d out) ≡ some e
      → ((q ≡ p) × (d ≡ e)) ⊎ (Map.get q out ≡ some e)
  get-insert_cases p q d e out g = elim (Bool-cases (cmp_eq q p)) [
    | inl same ↦ inl (eq_of_cmp_eq q p same, some_eq d e (ground (arith, Map.get-insert p q d out)))
    | inr other ↦ inr (ground (arith, Map.get-insert p q d out))
  ]

  pub IsPartial-read :
      (p : Str) (d : DrvInfo) (stack : List Str) (out : Drvs)
      → read p ≡ ok d
      → IsPartial (p ∷ stack) out
      → IsPartial (push_missing out (Map.keys d.input_drvs) stack) (Map.insert p d out)
  IsPartial-read p d stack out r w = record {
    sound = λ q e g. elim (get-insert_cases p q d e out g) [
      | inl (at, is) ↦ ap read at ∙ r ∙ ap ok is
      | inr old ↦ w.sound q e old
    ];
    pending = λ q e dep g m. elim (get-insert_cases p q d e out g) [
      | inl (at, is) ↦
          Pending-new p dep d (Map.keys d.input_drvs) stack out
            (ap (λ x. member dep (Map.keys x.input_drvs)) is ∙ m)
      | inr old ↦ Pending-read p dep d (Map.keys d.input_drvs) stack out (w.pending q e dep old m)
    ];
  }
