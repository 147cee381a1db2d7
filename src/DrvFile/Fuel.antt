-- ===== src/DrvFile/Fuel.antt =====
-- The fuel of the parser is enough, and what is left of the input is shorter.
use nix2rdf.Base.{
  ℕ, zero, suc, ◌+◌, ◌*◌, ◌<◌, ◌≤◌, Bool, true, false, [], ◌∷◌, arith, Str, ◌==◌, if◌then◌else◌,
  length, Bool-cases, inl, inr,
}
use nix2rdf.Base.Utf8.{is_utf8}
use nix2rdf.DrvFile.Parser.{
  Term, Result, ok, err, panicked, out_of_fuel, ◌>>=◌, string_body, string, term, seq, items, next,
}

-- The call returned or failed; what it left is shorter than `n`.
abbrev pub Fits {ℓ} : {A : Type ℓ} → ℕ → Result (A × Str) → Type 0
Fits n (ok (a, rest)) = length rest < n
Fits n (err e) = Unit
Fits n panicked = ⊥
Fits n out_of_fuel = ⊥

Fits-bind {ℓ κ} :
    {A : Type ℓ} {B : Type κ} (n m : ℕ) (r : Result (A × Str)) (g : A × Str → Result (B × Str))
    → Fits n r
    → ((a : A) (rest : Str) → length rest < n → Fits m (g (a, rest)))
    → Fits m (r >>= g)
Fits-bind n m (ok (a, rest)) g h k = k a rest h
Fits-bind n m (err e) g h k = tt
Fits-bind n m panicked g h k = absurd h
Fits-bind n m out_of_fuel g h k = absurd h

Fits-if {ℓ} :
    {A : Type ℓ} (n : ℕ) (b : Bool) (x y : Result (A × Str))
    → Fits n x
    → Fits n y
    → Fits n (if b then x else y)
Fits-if n true x y hx hy = hx
Fits-if n false x y hx hy = hy

Fits-mono {ℓ} : {A : Type ℓ} (n m : ℕ) (r : Result (A × Str)) → Fits n r → n ≤ m → Fits m r
Fits-mono n m (ok (a, rest)) h k = omega arith
Fits-mono n m (err e) h k = tt
Fits-mono n m panicked h k = h
Fits-mono n m out_of_fuel h k = h

string_body-Fits : (s : Str) → Fits (suc (length s)) (string_body s)
unfolding string_body
string_body-Fits [] = tt
string_body-Fits (c ∷ []) =
    Fits-if _ (c == b'"') _ _ (omega arith) (Fits-if _ (c == b'\\') _ _ tt tt)
string_body-Fits (c ∷ d ∷ s) = Fits-if _ (c == b'"') _ _ (omega arith) (
    Fits-if _ (c == b'\\') _ _
      (Fits-bind _ _ (string_body s) _ (string_body-Fits s) (λ out rest h. omega arith))
      (Fits-bind _ _ (string_body (d ∷ s)) _ (string_body-Fits (d ∷ s))
        (λ out rest h. omega arith)))

string-Fits : (s : Str) → Fits (length s) (string s)
unfolding string
string-Fits [] = tt
string-Fits (c ∷ s) = elim (Bool-cases (c == b'"')) [
  | inl e ↦ rw e (
      Fits-bind _ _ (string_body s) _ (string_body-Fits s)
        λ out rest h. Fits-if _ (is_utf8 out) _ _ h tt)
  | inr e ↦ rw e tt
]

mutual
  unfolding term

  term-Fits : (f : ℕ) (s : Str) → 3 * length s < f → Fits (length s) (term f s)
  term-Fits zero s h = absurd (omega arith)
  term-Fits (suc f) [] h = tt
  term-Fits (suc f) (c ∷ s) h =
      Fits-if _ (c == b'"') _ _
        (Fits-bind _ _ (string (c ∷ s)) _ (string-Fits (c ∷ s)) (λ out rest k. k))
        (Fits-if _ (c == b'[') _ _
          (Fits-bind _ _ (seq f b']' s) _ (seq-Fits f b']' s (omega arith))
            (λ ts rest k. omega arith))
          (Fits-if _ (c == b'(') _ _
            (Fits-bind _ _ (seq f b')' s) _ (seq-Fits f b')' s (omega arith))
              (λ ts rest k. omega arith))
            tt))

  seq-Fits : (f close : ℕ) (s : Str) → 3 * length s + 2 < f → Fits (length s) (seq f close s)
  seq-Fits zero close s h = absurd (omega arith)
  seq-Fits (suc f) close [] h = items-Fits f close [] (omega arith)
  seq-Fits (suc f) close (c ∷ s) h =
      Fits-if _ (c == close) _ _ (omega arith) (items-Fits f close (c ∷ s) (omega arith))

  items-Fits : (f close : ℕ) (s : Str) → 3 * length s + 1 < f → Fits (length s) (items f close s)
  items-Fits zero close s h = absurd (omega arith)
  items-Fits (suc f) close s h =
      Fits-bind _ _ (term f s) _ (term-Fits f s (omega arith)) λ t rest k.
        Fits-mono _ _ (next f close t rest) (next-Fits f close t rest (omega arith)) (omega arith)

  next-Fits :
      (f close : ℕ) (t : Term) (s : Str) → 3 * length s < f → Fits (length s) (next f close t s)
  next-Fits zero close t s h = absurd (omega arith)
  next-Fits (suc f) close t [] h = tt
  next-Fits (suc f) close t (c ∷ s) h =
      Fits-if _ (c == b',') _ _
        (Fits-bind _ _ (items f close s) _ (items-Fits f close s (omega arith))
          (λ ts rest k. omega arith))
        (Fits-if _ (c == close) _ _ (omega arith) tt)

-- With three units of fuel for each byte the parser never runs out of it: it returns a term and a
-- shorter rest, or it fails.
pub term-total : (s : Str) → Fits (length s) (term (3 * length s + 1) s)
term-total s = term-Fits (3 * length s + 1) s (omega arith)
