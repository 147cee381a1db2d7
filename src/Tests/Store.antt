-- ===== src/Tests/Store.antt =====
-- A store with one old file, and one write into it.
use nix2rdf.Base.{
  ◌≡◌, ◌≢◌, ◌⊎◌, refl, true, false, Option, none, some, List, [], ◌∷◌, arith, Str, codes,
}
use nix2rdf.Base.Map
use nix2rdf.Base.Order.{str_ord, list_ord, str_cmp, list_cmp}
use nix2rdf.Base.Set.{member}
use nix2rdf.Base.Paths.{
  FilePath, join, components, split_path, push_component, with_extension, map_last, file_stem,
}
use nix2rdf.Base.Text.{str_eq, rsplit_once}
use nix2rdf.Base.Utf8.{is_utf8}
use nix2rdf.Base.Set
use nix2rdf.Iri.Instances
use nix2rdf.Fragment.Kind.{graph, relative_path, suffix}
use nix2rdf.Fragment.Lines.{
  add_quads, add_quad, new, nquads_lines, show_iri, triple, Quad, from_quads, to_nquads, to_bytes,
}
use nix2rdf.Iri.Sample.{letters}
use nix2rdf.Store.Files.{
  write_to, write_compressed, write_bytes, Files, Fault, Result, tmp_path, path_of, exists, outcome,
  overwrite, write, read_quads, all_fragment_paths,
}
use nix2rdf.Store.Write.{overwrite_atomic, write_keeps}
use nix2rdf.Store.Listing.{IsCodec, read_quads-write, write-write, all_fragment_paths-write}
use nix2rdf.Tests.Fragment.{IsNamed, kind, named, named-IsNamed, one, parse, parse-IsNquadsParser}

abbrev root : FilePath
root = codes "store" ∷ []

abbrev old : FilePath
old = codes "store" ∷ codes "drv" ∷ codes "a.nq.zst" ∷ []

abbrev files : Files
files = (old, codes "old") ∷ []

abbrev compress : Str → Option Str
compress s = some (b'z' ∷ s)

decompress : Str → Option Str
decompress [] = none
decompress (b ∷ s) = some s

old-ne-tmp : old ≢ tmp_path (path_of letters compress root kind)
unfolding tmp_path path_of join components split_path push_component str_eq with_extension map_last
    file_stem rsplit_once relative_path suffix
old-ne-tmp e = ground arith

overwrite_atomic_example :
    let after = (overwrite letters compress root (Fault.partial 2) one files).0 in
    (Map.get old after ≡ Map.get old files)
    ⊎ ((bytes : Str) × (to_bytes letters compress one ≡ some bytes)
        × (old ≡ path_of letters compress root kind)
        × (Map.get old after ≡ some bytes))
overwrite_atomic_example =
    overwrite_atomic letters compress root (Fault.partial 2) one files old (tt, tt) old-ne-tmp

write_keeps_example :
    let after = (write letters compress root Fault.no_fault one files).0 in
    (Map.get old after ≡ Map.get old files)
    ⊎ ((bytes : Str) × (to_bytes letters compress one ≡ some bytes)
        × (old ≡ path_of letters compress root kind)
        × (Map.get old files ≡ none)
        × (Map.get old after ≡ some bytes))
write_keeps_example =
    write_keeps letters compress root Fault.no_fault one files old (tt, tt) old-ne-tmp

compress-IsCodec : IsCodec compress decompress
unfolding decompress
compress-IsCodec text bytes h = ground arith

not_there : Map.get (path_of letters compress root (from_quads kind (named ∷ [])).kind) files ≡ none
unfolding from_quads add_quads add_quad new path_of join components split_path push_component str_eq
    relative_path suffix Map.get str_cmp list_cmp
not_there = refl

named_utf8 : is_utf8 (to_nquads letters (from_quads kind (named ∷ []))) ≡ true
unfolding is_utf8 to_nquads nquads_lines show_iri triple graph Instances.drv Instances.id
    Instances.id_base from_quads add_quads add_quad new Set.insert
named_utf8 = refl

one_written :
    (write letters compress root Fault.no_fault one files).1
    ≡ Result.ok (
        outcome letters compress root one true
          (write letters compress root Fault.no_fault one files).0)
unfolding write exists overwrite write_to write_compressed write_bytes to_bytes path_of join
    components split_path push_component str_eq relative_path suffix Map.get str_cmp list_cmp
one_written = refl

read_quads-write_example :
    let f = from_quads kind (named ∷ []) in
    (rs : List Quad) × (read_quads decompress parse
        (path_of letters compress root f.kind)
        (write letters compress root Fault.no_fault f files).0
      ≡ Result.ok rs)
    × (from_quads kind rs ≡ f)
unfolding to_bytes
read_quads-write_example =
    read_quads-write letters compress decompress parse root IsNamed kind (named ∷ []) files
      (b'z' ∷ to_nquads letters (from_quads kind (named ∷ []))) compress-IsCodec
      parse-IsNquadsParser named-IsNamed named_utf8 refl not_there

write-write_example :
    let after = (write letters compress root Fault.no_fault one files).0 in
    write letters compress root Fault.rename one after
    ≡ (after, Result.ok (outcome letters compress root one false after))
write-write_example =
    write-write letters compress root Fault.no_fault Fault.rename one files _ one_written

all_fragment_paths-write_example :
    let after = (write letters compress root Fault.no_fault one files).0 in
    (member old (all_fragment_paths root files) ≡ true
      → member old (all_fragment_paths root after) ≡ true)
    × (member old (all_fragment_paths root after) ≡ true
        → (member old (all_fragment_paths root files) ≡ true)
          ⊎ (old ≡ path_of letters compress root kind))
all_fragment_paths-write_example =
    all_fragment_paths-write letters compress root Fault.no_fault one files old (tt, tt)
