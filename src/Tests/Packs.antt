-- ===== src/Tests/Packs.antt =====
-- Two packs, of which one needs the other.
use nix2rdf.Base.{
  ◌++◌, Bool-cases, ◌≡◌, ◌≢◌, ◌⊎◌, refl, inl, inr, ap, sym, ◌∙◌, true, none, some, List, [], ◌∷◌,
  arith, Str, codes,
}
use nix2rdf.Base.Map
use nix2rdf.Base.Order.{str_ord, str_cmp}
use nix2rdf.Base.Set
use nix2rdf.Base.Sort
use nix2rdf.Base.Set.{member}
use nix2rdf.Packs.Model.{rule_header, Pack, name}
use nix2rdf.Packs.Resolve.{resolve, visit, visit_all, ok, err, cycle}
use nix2rdf.Packs.Contract.{DependsOn, direct, through}
use nix2rdf.Packs.Load.{name-of_All, IsLoadOrder, Resolves, resolve-Resolves, resolve_acyclic}
use nix2rdf.Base.Split.{lines, lines_after, trim_matches, drop_while}
use nix2rdf.Base.Trim.{trim, trim_start, trim_end, trim_end_matches}
use nix2rdf.Base.Text.{split_once, strip_prefix, str_eq}
use nix2rdf.Packs.Prefixes
use nix2rdf.Packs.Prefixes.{
  State, Declares, collect_prefixes, add_packs, add_files, add_lines, add_line, add_read, declare,
  read_line,
}
use nix2rdf.Packs.Bindings.{collect_prefixes-Declares}
use nix2rdf.Packs.Visit.{IsNamed}

abbrev pack : Str → List Str → Pack
pack n deps = record {
  manifest = record { name = n; version = codes "1"; depends_on = deps; description = [] };
  dir = [];
  vocab_ttl = none;
  rule_files = [];
  content_hash = codes "0";
}

abbrev core : Pack
core = pack (codes "core") []

abbrev k8s : Pack
k8s = pack (codes "k8s") (codes "core" ∷ [])

abbrev packs : List (Str × Pack)
packs = (codes "core", core) ∷ (codes "k8s", k8s) ∷ []

packs-IsNamed : IsNamed packs
unfolding name
packs-IsNamed = name-of_All packs (refl, (refl, tt))

-- `k8s` is loaded behind `core`.
resolve-k8s_first : resolve packs (codes "k8s" ∷ codes "core" ∷ []) ≡ ok (core ∷ k8s ∷ [])
unfolding resolve visit visit_all Sort.sort Sort.insert_sorted Set.insert Set.remove member Map.get
    str_cmp
resolve-k8s_first = refl

abbrev looped : List (Str × Pack)
looped =
    (codes "a", pack (codes "a") (codes "b" ∷ []))
    ∷ (codes "b", pack (codes "b") (codes "a" ∷ []))
    ∷ []

resolve-looped : resolve looped (codes "a" ∷ []) ≡ err (cycle (codes "a"))
unfolding resolve visit visit_all Sort.sort Sort.insert_sorted Set.insert Set.remove member Map.get
    str_cmp
resolve-looped = refl

resolve-Resolves_example : Resolves packs (codes "k8s" ∷ []) (resolve packs (codes "k8s" ∷ []))
resolve-Resolves_example = resolve-Resolves packs (codes "k8s" ∷ []) packs-IsNamed

edge :
    (a b : Str) (p : Pack)
    → Map.get a packs ≡ some p
    → member b p.manifest.depends_on ≡ true
    → (a ≡ codes "k8s") × (b ≡ codes "core")
unfolding Map.get member
edge a b p g m = elim (Bool-cases (Set.cmp_eq a (codes "core"))) [
  | inl same ↦ absurd (ground arith)
  | inr other ↦ elim (Bool-cases (Set.cmp_eq a (codes "k8s"))) [
    | inl same ↦
        let q : k8s ≡ p = ground arith in
        let m' : member b (codes "core" ∷ []) ≡ true =
          ap (λ x. member b x.manifest.depends_on) q ∙ m in
        (Set.eq_of_cmp_eq a (codes "k8s") same, ground (arith, Set.eq_of_cmp_eq b (codes "core")))
    | inr another ↦ absurd (ground arith)
  ]
]

only_edge : (a b : Str) → DependsOn packs a b → (a ≡ codes "k8s") × (b ≡ codes "core")
only_edge a b (direct p g m) = edge a b p g m
only_edge a c (through {b} d e) = ((only_edge a b d).0, (only_edge b c e).1)

core-ne-k8s : codes "core" ≢ codes "k8s"
core-ne-k8s e = ground arith

core_known : Map.get (codes "core") packs ≡ some core
unfolding Map.get str_cmp
core_known = refl

k8s_known : Map.get (codes "k8s") packs ≡ some k8s
unfolding Map.get str_cmp
k8s_known = refl

asked_k8s : (a : Str) → member a (codes "k8s" ∷ []) ≡ true → a ≡ codes "k8s"
unfolding member
asked_k8s a h = ground (arith, Set.eq_of_cmp_eq a (codes "k8s"))

closed :
    (a n : Str)
    → member a (codes "k8s" ∷ []) ≡ true
    → (n ≡ a) ⊎ DependsOn packs a n
    → Map.get n packs ≢ none
closed a n h (inl e) g = cc (ap (λ x. Map.get x packs) (e ∙ asked_k8s a h), k8s_known)
closed a n h (inr d) g = cc (ap (λ x. Map.get x packs) (only_edge a n d).1, core_known)

resolve_acyclic_example :
    (order : List Pack) × (resolve packs (codes "k8s" ∷ []) ≡ ok order)
    × IsLoadOrder packs (codes "k8s" ∷ []) order
resolve_acyclic_example =
    resolve_acyclic packs (codes "k8s" ∷ []) packs-IsNamed
      (λ n d. core-ne-k8s (sym (only_edge n n d).1 ∙ (only_edge n n d).0)) closed

abbrev rules : Str
rules = codes "@prefix a: <b> ." ++ b'\n' ∷ codes "t(?s) :- u(?s) ."

abbrev ruled : Pack
ruled = record {
  manifest = record { name = codes "r"; version = []; depends_on = []; description = [] };
  dir = [];
  vocab_ttl = none;
  rule_files = (codes "f", rules) ∷ [];
  content_hash = [];
}

abbrev collected : State
collected = (
  (codes "a", codes "b") ∷ [],
  codes "%% ---- r/f ----" ++ b'\n' ∷ (codes "t(?s) :- u(?s) ." ++ b'\n' ∷ []),
)

ruled-collected : collect_prefixes (ruled ∷ []) ≡ Prefixes.Result.ok collected
unfolding collect_prefixes add_packs add_files add_lines add_line add_read declare read_line
    rule_header lines lines_after trim trim_start trim_end trim_end_matches trim_matches drop_while
    split_once strip_prefix Map.get Map.insert str_eq
ruled-collected = refl

ruled-Declares : Declares (ruled ∷ []) (codes "a") (codes "b")
unfolding read_line lines lines_after trim trim_start trim_end trim_end_matches trim_matches
    drop_while split_once strip_prefix
ruled-Declares = inl (inl (inl refl))

collect_prefixes-Declares_example : Map.get (codes "a") collected.0 ≡ some (codes "b")
collect_prefixes-Declares_example =
    collect_prefixes-Declares (ruled ∷ []) collected (codes "a") (codes "b") ruled-collected
      ruled-Declares
