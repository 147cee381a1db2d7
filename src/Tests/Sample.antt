-- ===== src/Tests/Sample.antt =====
-- A store of two derivations, of which one is an input of the other, with a source; Nix answers
-- of it what it documents.
use mathlib.Core.Path.{subst}
use nix2rdf.Base.{
  sym, ap, ◌∙◌, inl, inr, Bool-cases, All, ◌≡◌, refl, true, false, Option, none, some, List, [],
  ◌∷◌, ◌++◌, Str, codes, arith, if◌then◌else◌,
}
use nix2rdf.Base.Result.{ok}
use nix2rdf.Crates.{Crates}
use nix2rdf.Extract.Graph.Sources.{IsStore}
use nix2rdf.Extract.Outputs.{Infos, known}
use nix2rdf.Extract.Runtime.Round.{known-cons}
use nix2rdf.Extract.Runtime.Reach.{IsPathInfo}
use nix2rdf.Hash.Json.{Json}
use nix2rdf.Iri.Sample.{letters}
use nix2rdf.Nix.Model.{PathInfo}
use nix2rdf.Nix.Source.{NixSource}
use nix2rdf.Base.Map
use nix2rdf.Base.Order.{str_cmp, ◌≺◌, str_ord}
use nix2rdf.Base.Set.{eq_of_cmp_eq, member, cmp_eq}

abbrev pub crates : Crates
crates = record {
  base64 = letters;
  quote = λ s. b'"' ∷ s ++ b'"' ∷ [];
  digest = λ s. s;
  json_from_str = λ s. none;
  json_to_string = λ v. [];
  print_number = λ n. codes "7";
}

abbrev pub top : Str
top = codes "/nix/store/aaaaaaaaaaaaaaaaaaaaaaaaaaaaaaaa-a.drv"

abbrev pub dep : Str
dep = codes "/nix/store/bbbbbbbbbbbbbbbbbbbbbbbbbbbbbbbb-b.drv"

abbrev pub source : Str
source = codes "/nix/store/cccccccccccccccccccccccccccccccc-c"

abbrev pub info_of : Option Str → List Str → PathInfo
info_of nar refs = record { nar_hash = nar; references = refs; deriver = none }

-- The top refers to what it depends on, and to itself.
abbrev pub entries : List (Str × PathInfo)
entries =
    (top, info_of none (top ∷ dep ∷ []))
    ∷ (dep, info_of none [])
    ∷ (source, info_of (some (codes "sha256-AA==")) [])
    ∷ []

abbrev pub store : Str → Option PathInfo
store p = Map.get p entries

unfoldable pub answer : List Str → List (Str × PathInfo) → Infos
answer ps [] = []
answer ps ((p, i) ∷ es) =
    let rest = answer ps es in if member p ps then (p, some i) ∷ rest else rest

abbrev pub nix : NixSource
nix = record {
  derivation_show = λ ps r. ok [];
  path_info = λ ps. ok (answer ps entries);
  flake_metadata = λ r. ok Json.null;
  eval_json = λ a. ok Json.null;
  flake_show = λ r. ok Json.null;
  build_json = λ r. ok [];
}

pub known-answer :
    (ps : List Str) (es : List (Str × PathInfo)) (p : Str)
    → known p (answer ps es) ≡ (if member p ps then Map.get p es else none)
unfolding answer known Map.get
known-answer ps [] p = ground arith
known-answer ps ((q, i) ∷ es) p =
    let ih = known-answer ps es p in
    elim (Bool-cases (member q ps)) [
      | inl asked ↦ elim (Bool-cases (cmp_eq p q)) [
        | inl same ↦
            let is = eq_of_cmp_eq p q same in
            let there : member p ps ≡ true = ap (λ x. member x ps) is ∙ asked in
            rw (asked, known-cons p q (some i) (answer ps es), same, there) refl
        | inr other ↦ rw (asked, known-cons p q (some i) (answer ps es), other) ih
      ]
      | inr not_asked ↦ elim (Bool-cases (cmp_eq p q)) [
        | inl same ↦
            let is = eq_of_cmp_eq p q same in
            let there : member p ps ≡ false = ap (λ x. member x ps) is ∙ not_asked in
            rw (not_asked, there) (ih ∙ rw there refl)
        | inr other ↦ rw (not_asked, other) ih
      ]
    ]

known_of_answer :
    (ps : List Str) (infos : Infos) (p : Str)
    → nix.path_info ps ≡ ok infos
    → known p infos ≡ (if member p ps then store p else none)
known_of_answer ps infos p e =
    let is : answer ps entries ≡ infos = cc e in ap (known p) (sym is) ∙ known-answer ps entries p

pub nix-IsStore : IsStore nix store
nix-IsStore ps infos p e m = known_of_answer ps infos p e ∙ ap (λ b. if b then store p else none) m

answer-All :
    (ps : List Str) (k : Str) (es : List (Str × PathInfo))
    → All (λ e. k ≺ e.0) es
    → All (λ e. k ≺ e.0) (answer ps es)
unfolding answer
answer-All ps k [] h = tt
answer-All ps k ((q, i) ∷ es) h = ground (arith, answer-All ps k es)

answer-IsSorted :
    (ps : List Str) (es : List (Str × PathInfo)) → Map.IsSorted es → Map.IsSorted (answer ps es)
unfolding answer
answer-IsSorted ps [] h = tt
answer-IsSorted ps ((q, i) ∷ es) h = ground (arith, answer-All ps q es, answer-IsSorted ps es)

entries-IsSorted : Map.IsSorted entries
unfolding str_cmp
entries-IsSorted = ground arith

pub nix-IsPathInfo : IsPathInfo nix store
nix-IsPathInfo = record {
  answers = nix-IsStore;
  asked = λ ps infos p e m. known_of_answer ps infos p e ∙ ap (λ b. if b then store p else none) m;
  sorted = λ ps infos e.
      let is : answer ps entries ≡ infos = cc e in
      subst (λ m. Map.IsSorted m) is (answer-IsSorted ps entries entries-IsSorted);
}
