-- ===== src/Tests/Runs.antt =====
-- Rule runs: nulls, inputs and the collection of old results.
use nix2rdf.Base.{
  ap, Bool, ◌≡◌, refl, false, ◌&&◌, not, none, List, [], ◌∷◌, arith, Str, codes, if◌then◌else◌,
  str_eq,
}
use nix2rdf.Base.Map
use nix2rdf.Base.Sort
use nix2rdf.Base.Order.{str_ord, list_ord, str_cmp, list_cmp}
use nix2rdf.Base.Paths.{
  FilePath, join, components, split_path, push_component, path_ends_with, ends_with,
  path_strip_prefix,
}
use nix2rdf.Base.Text.{strip_prefix}
use nix2rdf.Reason.Collect.{
  gc_derived, gc_derived-get, is_derived, is_kept, remove_runs, remove_stale, ruleset_of, second,
}
use nix2rdf.Reason.Inputs.{InputGraph}
use nix2rdf.Reason.Nulls.{iri, null, DerivedTriple, Term, canonicalize_nulls}
use nix2rdf.Reason.Renaming.{HasAsciiDigests, rename_triples, canonicalize_nulls-rename}
use nix2rdf.Store.Files.{Files, Result, select, fragment_paths_under, is_fragment_file, relative}

abbrev digest : Str → Str
digest s = codes "0"

digest-HasAsciiDigests : HasAsciiDigests digest
digest-HasAsciiDigests text = omega arith

abbrev show : Term → Str
show (Term.named_node i) = i
show (Term.typed_literal l d) = l
show (Term.tagged_literal l g) = l

abbrev triples : List DerivedTriple
triples =
    record { s = null (codes "a"); p = iri (codes "p"); o = null (codes "b") }
    ∷ record { s = null (codes "b"); p = iri (codes "p"); o = iri (codes "o") }
    ∷ []

abbrev primed : Str → Str
primed s = b'x' ∷ s

primed-injective : (a b : Str) → primed a ≡ primed b → a ≡ b
primed-injective a b e = cc

canonicalize_nulls-rename_example :
    canonicalize_nulls show digest (codes "g") (rename_triples primed triples)
    ≡ canonicalize_nulls show digest (codes "g") triples
canonicalize_nulls-rename_example =
    canonicalize_nulls-rename show digest (codes "g") primed triples primed-injective
      digest-HasAsciiDigests

abbrev input : Str → InputGraph
input g = record { graph = g; path = []; nquads = g }

abbrev inputs : List InputGraph
inputs = input (codes "b") ∷ input (codes "a") ∷ []

abbrev one_input : List InputGraph
one_input = input (codes "a") ∷ []

abbrev root : FilePath
root = codes "store" ∷ []

abbrev stale : FilePath
stale = codes "store" ∷ codes "derived" ∷ codes "r1" ∷ codes "i.nq.zst" ∷ []

abbrev kept : FilePath
kept = codes "store" ∷ codes "derived" ∷ codes "r2" ∷ codes "i.nq.zst" ∷ []

abbrev files : Files
files = (stale, codes "x") ∷ (kept, codes "y") ∷ []

never : FilePath → Bool
never p = false

gc_files : gc_derived root (codes "r2" ∷ []) never files ≡ ((kept, codes "y") ∷ [], Result.ok 1)
unfolding never gc_derived remove_runs remove_stale fragment_paths_under select is_fragment_file
    join components split_path push_component path_strip_prefix path_ends_with ends_with
    strip_prefix str_eq is_kept ruleset_of second relative Map.remove str_cmp list_cmp
gc_files = refl

files-IsSorted : Map.IsSorted files
unfolding str_cmp list_cmp
files-IsSorted = ((refl, tt), (tt, tt))

gc_derived-get_example : Map.get stale (gc_derived root (codes "r2" ∷ []) never files).0 ≡ (
    if is_derived root (codes "r2" ∷ []) never stale
      && not (is_kept root (codes "r2" ∷ []) never stale)
    then none
    else Map.get stale files)
gc_derived-get_example =
    gc_derived-get root (codes "r2" ∷ []) never files 1 stale files-IsSorted
      (ap (λ r. r.1) gc_files)
