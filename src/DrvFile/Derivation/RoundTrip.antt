-- ===== src/DrvFile/Derivation/RoundTrip.antt =====
-- The text that Nix writes for a derivation, and what `parse_drv` makes of it.
use nix2rdf.Base.{
  strip_prefix-append, length, split_once_at, split_once_of_Lacks, split_once, ℕ, ◌+◌, ◌*◌, ◌≡◌,
  ◌≢◌, refl, false, Option, none, some, List, [], ◌∷◌, ◌++◌, Str, codes, Lacks, if◌then◌else◌,
  str_eq, unwrap_or, All, append_assoc, append-nil, sym, ◌∙◌, ap,
}
use nix2rdf.Base.Map
use nix2rdf.Base.Order.{str_ord}
use nix2rdf.DrvFile.Derivation.{
  some_unless_empty, split_algo, parse_output, parse_outputs, parse_strs, parse_input, parse_inputs,
  parse_pair, parse_env, drv_name, parse_fields, derive_fields, parse_drv, as_str, as_list, index,
  count,
}
use nix2rdf.Base.Trim.{trim_end, trim_end_of_paren}
use nix2rdf.DrvFile.Length.{print_seq_end, cost-print}
use nix2rdf.DrvFile.Parser.{term, Term, Terms, str, list, tuple, nil, cons, ok}
use nix2rdf.DrvFile.Print.{print_seq, print}
use nix2rdf.DrvFile.RoundTrip.{AreUtf8, term-print}
use nix2rdf.Hash.Json
use nix2rdf.Nix.Model.{DrvInfo, InputDrv, OutputInfo, outputs_of}

-- How Nix writes the method and the algorithm of an output.
unfoldable pub join_algo : Option Str → Option Str → Str
join_algo (some m) (some a) =
    if str_eq m (codes "nar")
    then codes "r:" ++ a
    else if str_eq m (codes "flat")
    then a
    else m ++ (b':' ∷ a)
join_algo _ _ = []

unfoldable pub strs : List Str → Terms
strs [] = nil
strs (s ∷ l) = cons (str s) (strs l)

unfoldable pub output_term : Str × OutputInfo → Term
output_term (name, o) =
    let path = str (unwrap_or [] o.path) in
    let algo = str (join_algo o.method o.hash_algo) in
    tuple (cons (str name) (cons path (cons algo (cons (str (unwrap_or [] o.hash)) nil))))

unfoldable pub output_terms : List (Str × OutputInfo) → Terms
output_terms [] = nil
output_terms (o ∷ os) = cons (output_term o) (output_terms os)

unfoldable pub input_terms : List (Str × InputDrv) → Terms
input_terms [] = nil
input_terms ((path, drv) ∷ is) =
    cons (tuple (cons (str path) (cons (list (strs (outputs_of drv))) nil))) (input_terms is)

unfoldable pub env_terms : List (Str × Str) → Terms
env_terms [] = nil
env_terms ((k, v) ∷ es) = cons (tuple (cons (str k) (cons (str v) nil))) (env_terms es)

unfoldable pub drv_terms : DrvInfo → Terms
drv_terms d = cons (list (output_terms d.outputs)) (
    cons (list (input_terms d.input_drvs)) (
      cons (list (strs d.input_srcs)) (
        cons (str d.system)
          (cons (str d.builder) (cons (list (strs d.args)) (cons (list (env_terms d.env)) nil))))))

unfoldable pub print_drv : DrvInfo → Str
print_drv d = codes "Derive" ++ print (tuple (drv_terms d))

-- The pairs of method and algorithm that the notation tells apart.
pub data IsAlgo : Option Str → Option Str → Type 0 where
  unset : IsAlgo none none
  nar : (a : Str) → IsAlgo (some (codes "nar")) (some a)
  flat : (c : ℕ) (a : Str) → Lacks b':' (c ∷ a) → IsAlgo (some (codes "flat")) (some (c ∷ a))
  other :
      (m a : Str)
      → str_eq m (codes "nar") ≡ false
      → str_eq m (codes "flat") ≡ false
      → str_eq m (codes "r") ≡ false
      → Lacks b':' m
      → IsAlgo (some m) (some a)

-- An output that the notation can express: no empty path or hash.
pub record IsOutput (o : OutputInfo) : Type 0 where
  pub path : o.path ≢ some []
  pub hash : o.hash ≢ some []
  pub algo : IsAlgo o.method o.hash_algo

-- Inputs in the form that the parser builds.
abbrev pub IsInput : InputDrv → Type 0
IsInput drv = drv ≡ InputDrv.structured (outputs_of drv) (Json.object Json.end)

pub record IsPrintable (path : Str) (d : DrvInfo) : Type 0 where
  pub name : d.name ≡ drv_name path
  pub outputs : Map.IsSorted d.outputs
  pub input_drvs : Map.IsSorted d.input_drvs
  pub env : Map.IsSorted d.env
  pub each_output : All (λ p. IsOutput p.1) d.outputs
  pub each_input : All (λ p. IsInput p.1) d.input_drvs
  pub text : AreUtf8 (drv_terms d)

split_algo-join_algo : {m a : Option Str} → IsAlgo m a → split_algo (join_algo m a) ≡ (m, a)
unfolding split_algo join_algo str_eq split_once
split_algo-join_algo unset = refl
split_algo-join_algo (nar a) = refl
split_algo-join_algo (flat c a h) = rw (split_once_of_Lacks b':' (c ∷ a) h, split_algo)
split_algo-join_algo (other [] a h1 h2 h3 l) = refl
split_algo-join_algo (other (c ∷ m) a h1 h2 h3 l) =
    rw (h1, join_algo, h2) (rw (split_once_at b':' (c ∷ m) a l, split_algo, h3))

parse_strs-strs : (l : List Str) → parse_strs (strs l) ≡ ok l
unfolding parse_strs strs as_str
parse_strs-strs [] = refl
parse_strs-strs (s ∷ l) = rw (parse_strs-strs l)

parse_env-env_terms :
    (es acc : List (Str × Str))
    → Map.IsSorted (acc ++ es)
    → parse_env (env_terms es) acc ≡ ok (acc ++ es)
unfolding parse_env env_terms parse_pair as_list as_str index
parse_env-env_terms [] acc h = rw append-nil
parse_env-env_terms ((k, v) ∷ es) acc h =
    let p = append_assoc acc ((k, v) ∷ []) es in
    rw (Map.insert-IsSorted_last acc k v es h)
      (parse_env-env_terms es (acc ++ (k, v) ∷ []) (rw p h) ∙ ap ok p)

parse_inputs-input_terms :
    (is acc : List (Str × InputDrv))
    → All (λ p. IsInput p.1) is
    → Map.IsSorted (acc ++ is)
    → parse_inputs (input_terms is) acc ≡ ok (acc ++ is)
unfolding parse_inputs input_terms parse_input as_list as_str index
parse_inputs-input_terms [] acc a h = rw append-nil
parse_inputs-input_terms ((k, v) ∷ is) acc (i, a) h =
    let p = append_assoc acc ((k, v) ∷ []) is in
    rw (parse_strs-strs (outputs_of v), ← i, Map.insert-IsSorted_last acc k v is h)
      (parse_inputs-input_terms is (acc ++ (k, v) ∷ []) a (rw p h) ∙ ap ok p)

some_unless_empty_of : (o : Option Str) → o ≢ some [] → some_unless_empty (unwrap_or [] o) ≡ o
some_unless_empty_of none h = refl
some_unless_empty_of (some []) h = absurd (h refl)
some_unless_empty_of (some (c ∷ s)) h = refl

parse_output-output_term :
    (name : Str) (o : OutputInfo) → IsOutput o → parse_output (output_term (name, o)) ≡ ok (name, o)
unfolding parse_output output_term as_list as_str index
parse_output-output_term name o w = rw (
  some_unless_empty_of o.path w.path,
  some_unless_empty_of o.hash w.hash,
  split_algo-join_algo w.algo,
)

parse_outputs-output_terms :
    (os acc : List (Str × OutputInfo))
    → All (λ p. IsOutput p.1) os
    → Map.IsSorted (acc ++ os)
    → parse_outputs (output_terms os) acc ≡ ok (acc ++ os)
unfolding parse_outputs output_terms
parse_outputs-output_terms [] acc a h = rw append-nil
parse_outputs-output_terms ((k, v) ∷ os) acc (w, a) h =
    let p = append_assoc acc ((k, v) ∷ []) os in
    rw (parse_output-output_term k v w, Map.insert-IsSorted_last acc k v os h)
      (parse_outputs-output_terms os (acc ++ (k, v) ∷ []) a (rw p h) ∙ ap ok p)

parse_fields-drv_terms :
    (path : Str) (d : DrvInfo) → IsPrintable path d → parse_fields path (drv_terms d) ≡ ok d
unfolding parse_fields drv_terms as_list as_str index
parse_fields-drv_terms path d w = rw (
  parse_outputs-output_terms d.outputs [] w.each_output w.outputs,
  parse_inputs-input_terms d.input_drvs [] w.each_input w.input_drvs,
  parse_strs-strs d.input_srcs,
  parse_strs-strs d.args,
  parse_env-env_terms d.env [] w.env,
  ← w.name,
)

-- What Nix prints for a derivation is read as that derivation. Its name is the one in the path, its
-- maps are sorted, its outputs and inputs have the forms that the notation can express, and its
-- texts are UTF-8.
pub parse_drv-print_drv :
    (path : Str) (d : DrvInfo) → IsPrintable path d → parse_drv path (print_drv d) ≡ ok d
unfolding parse_drv print_drv derive_fields drv_terms count print
parse_drv-print_drv path d w =
    let ts = drv_terms d in
    let (s, e) = print_seq_end b')' ts in
    let kept : trim_end (print_drv d) ≡ print_drv d =
      ap (λ x. trim_end (codes "Derive(" ++ x)) e
      ∙ trim_end_of_paren (codes "Derive(" ++ s)
      ∙ ap (λ x. codes "Derive(" ++ x) (sym e) in
    let read : term (3 * length (print (tuple ts)) + 1) (print (tuple ts)) ≡ ok (tuple ts, []) =
      ap (term (3 * length (print (tuple ts)) + 1)) (sym (append-nil (print (tuple ts))))
      ∙ term-print (tuple ts) _ [] (cost-print (tuple ts)) w.text in
    rw (kept, parse_drv, strip_prefix-append (codes "Derive(") (print_seq b')' ts), read)
      (parse_fields-drv_terms path d w)
