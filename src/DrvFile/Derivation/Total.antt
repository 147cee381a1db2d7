-- ===== src/DrvFile/Derivation/Total.antt =====
-- `parse_drv` returns, fails or panics; it never runs out of fuel.
use nix2rdf.Base.{
  inr, inl, ℕ, zero, suc, ◌+◌, ◌*◌, ◌≢◌, List, [], ◌∷◌, arith, Str, codes, length, strip_prefix,
  Option-cases,
}
use nix2rdf.Base.Trim.{trim_end}
use nix2rdf.DrvFile.Derivation.{
  as_str, as_list, index, parse_output, parse_outputs, parse_strs, parse_input, parse_inputs,
  parse_pair, parse_env, parse_fields, derive_fields, parse_drv,
}
use nix2rdf.DrvFile.Fuel.{Fits, term-total}
use nix2rdf.DrvFile.Parser.{
  Term, Terms, str, list, tuple, nil, cons, Result, ok, err, panicked, out_of_fuel, ◌>>=◌, term,
}
use nix2rdf.Nix.Model.{OutputInfo, InputDrv}

abbrev Ends {ℓ} : {A : Type ℓ} → Result A → Type 0
Ends (ok a) = Unit
Ends (err e) = Unit
Ends panicked = Unit
Ends out_of_fuel = ⊥

Ends-bind {ℓ κ} :
    {A : Type ℓ} {B : Type κ} (r : Result A) (g : A → Result B)
    → Ends r
    → ((a : A) → Ends (g a))
    → Ends (r >>= g)
Ends-bind (ok a) g h k = k a
Ends-bind (err e) g h k = tt
Ends-bind panicked g h k = tt
Ends-bind out_of_fuel g h k = h

as_str-Ends : (t : Term) → Ends (as_str t)
unfolding as_str
as_str-Ends (str s) = tt
as_str-Ends _ = tt

as_list-Ends : (t : Term) → Ends (as_list t)
unfolding as_list
as_list-Ends (str s) = tt
as_list-Ends _ = tt

index-Ends : (i : ℕ) (ts : Terms) → Ends (index i ts)
unfolding index
index-Ends i nil = tt
index-Ends zero (cons t ts) = tt
index-Ends (suc i) (cons t ts) = index-Ends i ts

text_at : (i : ℕ) (ts : Terms) → Ends (index i ts >>= as_str)
text_at i ts = Ends-bind (index i ts) as_str (index-Ends i ts) as_str-Ends

list_at : (i : ℕ) (ts : Terms) → Ends (index i ts >>= as_list)
list_at i ts = Ends-bind (index i ts) as_list (index-Ends i ts) as_list-Ends

parse_output-Ends : (o : Term) → Ends (parse_output o)
unfolding parse_output
parse_output-Ends o = Ends-bind (as_list o) _ (as_list-Ends o) λ t.
    Ends-bind (index 0 t >>= as_str) _ (text_at 0 t) λ name.
      Ends-bind (index 1 t >>= as_str) _ (text_at 1 t) λ path.
        Ends-bind (index 2 t >>= as_str) _ (text_at 2 t)
          λ algo. Ends-bind (index 3 t >>= as_str) _ (text_at 3 t) λ hash. tt

parse_outputs-Ends : (ts : Terms) (acc : List (Str × OutputInfo)) → Ends (parse_outputs ts acc)
unfolding parse_outputs
parse_outputs-Ends nil acc = tt
parse_outputs-Ends (cons t ts) acc =
    Ends-bind (parse_output t) _ (parse_output-Ends t) λ p. parse_outputs-Ends ts _

parse_strs-Ends : (ts : Terms) → Ends (parse_strs ts)
unfolding parse_strs
parse_strs-Ends nil = tt
parse_strs-Ends (cons t ts) =
    Ends-bind (as_str t) _ (as_str-Ends t)
      λ s. Ends-bind (parse_strs ts) _ (parse_strs-Ends ts) λ rest. tt

strs_at : (i : ℕ) (ts : Terms) → Ends (index i ts >>= as_list >>= parse_strs)
strs_at i ts = Ends-bind (index i ts >>= as_list) parse_strs (list_at i ts) parse_strs-Ends

parse_inputs-Ends : (ts : Terms) (acc : List (Str × InputDrv)) → Ends (parse_inputs ts acc)
unfolding parse_inputs parse_input
parse_inputs-Ends nil acc = tt
parse_inputs-Ends (cons t ts) acc =
    Ends-bind (parse_input t) _
      (Ends-bind (as_list t) _ (as_list-Ends t) λ r.
        Ends-bind (index 0 r >>= as_str) _ (text_at 0 r)
          λ path. Ends-bind (index 1 r >>= as_list >>= parse_strs) _ (strs_at 1 r) λ outs. tt)
      λ p. parse_inputs-Ends ts _

parse_env-Ends : (ts : Terms) (acc : List (Str × Str)) → Ends (parse_env ts acc)
unfolding parse_env parse_pair
parse_env-Ends nil acc = tt
parse_env-Ends (cons t ts) acc =
    Ends-bind (parse_pair t) _
      (Ends-bind (as_list t) _ (as_list-Ends t) λ r.
        Ends-bind (index 0 r >>= as_str) _ (text_at 0 r)
          λ k. Ends-bind (index 1 r >>= as_str) _ (text_at 1 r) λ v. tt)
      λ p. parse_env-Ends ts _

parse_fields-Ends : (path : Str) (ts : Terms) → Ends (parse_fields path ts)
unfolding parse_fields
parse_fields-Ends path ts =
    Ends-bind _ _ (Ends-bind _ _ (list_at 0 ts) λ l. parse_outputs-Ends l []) λ outputs.
      Ends-bind _ _ (Ends-bind _ _ (list_at 1 ts) λ l. parse_inputs-Ends l []) λ inputs.
        Ends-bind _ _ (strs_at 2 ts) λ srcs. Ends-bind _ _ (text_at 3 ts) λ system.
          Ends-bind _ _ (text_at 4 ts) λ builder.
            Ends-bind _ _ (strs_at 5 ts) λ args.
              Ends-bind _ _ (Ends-bind _ _ (list_at 6 ts) λ l. parse_env-Ends l []) λ env. tt

derive_fields-Ends : (t : Term) → Ends (derive_fields t)
unfolding derive_fields
derive_fields-Ends (str s) = tt
derive_fields-Ends (list ts) = tt
derive_fields-Ends (tuple ts) = ground arith

Fits-Ends {ℓ} : {A : Type ℓ} (n : ℕ) (r : Result (A × Str)) → Fits n r → Ends r
Fits-Ends n (ok a) h = tt
Fits-Ends n (err e) h = tt
Fits-Ends n panicked h = tt
Fits-Ends n out_of_fuel h = h

Ends-ne {ℓ} : {A : Type ℓ} (r : Result A) → Ends r → r ≢ out_of_fuel
Ends-ne (ok a) h = cc
Ends-ne (err e) h = cc
Ends-ne panicked h = cc
Ends-ne out_of_fuel h = absurd h

parse_drv-Ends : (path text : Str) → Ends (parse_drv path text)
unfolding parse_drv
parse_drv-Ends path text = elim (Option-cases (strip_prefix (codes "Derive(") (trim_end text))) [
  | inl e ↦ rw (e, parse_drv) tt
  | inr (rest, e) ↦
      rw (e, parse_drv)
        (Ends-bind (term (3 * length (b'(' ∷ rest) + 1) (b'(' ∷ rest)) _
          (Fits-Ends _ _ (term-total (b'(' ∷ rest)))
          λ p.
            Ends-bind (derive_fields p.0) _ (derive_fields-Ends p.0)
              λ fields. parse_fields-Ends path fields)
]

-- Whatever the text, the parser returns a derivation, reports an error or panics: the fuel of the
-- model is enough.
pub parse_drv-ne-out_of_fuel : (path text : Str) → parse_drv path text ≢ out_of_fuel
parse_drv-ne-out_of_fuel path text = Ends-ne (parse_drv path text) (parse_drv-Ends path text)
