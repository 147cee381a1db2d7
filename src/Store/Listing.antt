-- ===== src/Store/Listing.antt =====
-- What is found in the store after a write: the fragment's quads, its file in the listing, and
-- nothing to write a second time.
use nix2rdf.Base.{
  ◌&&◌, ◌≡◌, ◌≢◌, ◌⊎◌, ◌∙◌, sym, ap, inl, inr, refl, Bool, true, false, Option, none, some, List,
  [], ◌∷◌, Str, Bool-cases, arith, Option-cases,
}
use nix2rdf.Base.Map
use nix2rdf.Base.Order.{str_ord, list_ord}
use nix2rdf.Base.Set.{member, eq_of_cmp_eq}
use nix2rdf.Base.Paths.{FilePath, path_ends-with_extension}
use nix2rdf.Base.Utf8.{is_utf8}
use nix2rdf.Fragment.Kind.{FragmentKind, graph}
use nix2rdf.Fragment.Lines.{Fragment, Quad, to_bytes, to_nquads, to_quads, from_quads}
use nix2rdf.Fragment.Nquads.{IsNquadsParser, to_quads-from_quads}
use nix2rdf.Base.Lists.{All}
use nix2rdf.Iri.Base64.{Base64}
use nix2rdf.Store.Files.{
  map_result, WriteOutcome, Files, Fault, Result, tmp_path, write_bytes, write_compressed, write_to,
  path_of, outcome, overwrite, write, read_quads, select, all_fragment_paths, is_listed,
  is_fragment_file,
}
use nix2rdf.Store.Write.{write_keeps, rename_file-eq, write_missing, write_present}

-- What zstd documents: what was compressed is decompressed to the same bytes.
abbrev pub IsCodec : (compress decompress : Str → Option Str) → Type 0
IsCodec compress decompress =
    (text bytes : Str) → compress text ≡ some bytes → decompress bytes ≡ some text

write_compressed-no_fault :
    (path : FilePath) (o : Option Str) (fs : Files) (bytes : Str)
    → o ≡ some bytes
    → Map.get path (write_compressed Fault.no_fault path o fs).0 ≡ some bytes
unfolding write_compressed write_bytes
write_compressed-no_fault path none fs bytes h = cc
write_compressed-no_fault path (some b) fs bytes h =
    ap (Map.get path) (rename_file-eq (tmp_path path) path b fs) ∙ Map.get-insert_self path b _ ∙ h

read_quads_of :
    (decompress : Str → Option Str) (parse : Str → Option (List Quad)) (path : FilePath)
    (fs : Files) (bytes text : Str) (qs : List Quad)
    → Map.get path fs ≡ some bytes
    → decompress bytes ≡ some text
    → is_utf8 text ≡ true
    → parse text ≡ some qs
    → read_quads decompress parse path fs ≡ Result.ok qs
unfolding read_quads
read_quads_of decompress parse path fs bytes text qs h d u p = ground arith

module _ (c : Base64) (compress decompress : Str → Option Str) (parse : Str → Option (List Quad))
    (root : FilePath) where
  -- A new fragment is read back from the store after it was written: its quads make the same
  -- fragment. Compression is undone by decompression, the parser reads what was printed, the terms
  -- are well-formed, the text is UTF-8, compression succeeds and no call fails.
  pub read_quads-write :
      (valid : Quad → Type 0) (k : FragmentKind) (qs : List Quad) (fs : Files) (bytes : Str)
      → IsCodec compress decompress
      → IsNquadsParser valid (graph c k) parse
      → All valid qs
      → is_utf8 (to_nquads c (from_quads k qs)) ≡ true
      → to_bytes c compress (from_quads k qs) ≡ some bytes
      → Map.get (path_of c compress root (from_quads k qs).kind) fs ≡ none
      → let f = from_quads k qs in
        (rs : List Quad) × (read_quads decompress parse
            (path_of c compress root f.kind)
            (write c compress root Fault.no_fault f fs).0
          ≡ Result.ok rs)
        × (from_quads k rs ≡ f)
  unfolding to_bytes to_quads overwrite write_to
  read_quads-write valid k qs fs bytes codec parser terms utf8 stored missing =
      let f = from_quads k qs in
      let path = path_of c compress root f.kind in
      let (rs, parsed, same) = to_quads-from_quads c valid parse k qs parser terms in
      let at : Map.get path (write c compress root Fault.no_fault f fs).0 ≡ some bytes =
        ap (λ r. Map.get path r.0) (write_missing c compress root Fault.no_fault f fs missing)
        ∙ write_compressed-no_fault path (to_bytes c compress f) fs bytes stored in
      (
        rs,
        read_quads_of decompress parse path _ bytes (to_nquads c f) rs at (codec _ bytes stored)
            utf8 parsed,
        same,
      )

map_ok :
    {A B : Type 0} (g : A → B) (r : Result A) (b : B)
    → map_result g r ≡ Result.ok b
    → (a : A) × (r ≡ Result.ok a)
map_ok g (Result.ok a) b h = (a, refl)
map_ok g (Result.err e) b h = absurd (cc h)

write_compressed_ok :
    (fault : Fault) (path : FilePath) (o : Option Str) (fs : Files) (u : Unit)
    → (write_compressed fault path o fs).1 ≡ Result.ok u
    → (bytes : Str) × (Map.get path (write_compressed fault path o fs).0 ≡ some bytes)
unfolding write_compressed write_bytes
write_compressed_ok Fault.dirs path o fs u h = absurd (cc h)
write_compressed_ok Fault.no_fault path none fs u h = absurd (cc h)
write_compressed_ok Fault.rename path none fs u h = absurd (cc h)
write_compressed_ok (Fault.partial m) path none fs u h = absurd (cc h)
write_compressed_ok Fault.no_fault path (some b) fs u h =
    (b, write_compressed-no_fault path (some b) fs b refl)
write_compressed_ok Fault.rename path (some b) fs u h = absurd (cc h)
write_compressed_ok (Fault.partial m) path (some b) fs u h = absurd (cc h)

pub member-select :
    (p : FilePath → Bool) (q : FilePath) (fs : Files)
    → member q (select p fs) ≡ (Map.contains_key q fs && p q)
unfolding select member Map.get
member-select p q [] = refl
member-select p q ((path, bytes) ∷ fs) = ground (arith, member-select p q fs, eq_of_cmp_eq q path)

tmp-not_listed : (root path : FilePath) → is_listed root (tmp_path path) ≡ false
unfolding is_listed is_fragment_file tmp_path
tmp-not_listed root path = ground (arith, path_ends-with_extension path)

listed-ne-tmp : (root q path : FilePath) → is_listed root q ≡ true → q ≢ tmp_path path
listed-ne-tmp root q path h e = cc (ap (is_listed root) e, tmp-not_listed root path)

module _ (c : Base64) (compress : Str → Option Str) (root : FilePath) where
  -- Writing a fragment again, after a write that returned an outcome, writes nothing and says so.
  pub write-write :
      (fault fault' : Fault) (f : Fragment) (fs : Files) (o : WriteOutcome)
      → (write c compress root fault f fs).1 ≡ Result.ok o
      → let after = (write c compress root fault f fs).0 in
        write c compress root fault' f after
        ≡ (after, Result.ok (outcome c compress root f false after))
  unfolding overwrite write_to
  write-write fault fault' f fs o h =
      elim (Option-cases (Map.get (path_of c compress root f.kind) fs)) [
        | inr (old, present) ↦
            rw (write_present c compress root fault f fs old present)
              (write_present c compress root fault' f fs old present)
        | inl missing ↦
            let e = write_missing c compress root fault f fs missing in
            let (u, done) = map_ok _ _ o (ap (λ r. r.1) (sym e) ∙ h) in
            let (bytes, stored) = write_compressed_ok fault _ _ fs u done in
            write_present c compress root fault' f _ bytes
              (ap (λ r. Map.get (path_of c compress root f.kind) r.0) e ∙ stored)
      ]

  -- After a write, whichever call fails, the listing has the fragments' files that it had before,
  -- and no other but the file of the written fragment. The map of files is sorted.
  pub all_fragment_paths-write :
      (fault : Fault) (f : Fragment) (fs : Files) (q : FilePath)
      → Map.IsSorted fs
      → let after = (write c compress root fault f fs).0 in
        (member q (all_fragment_paths root fs) ≡ true
          → member q (all_fragment_paths root after) ≡ true)
        × (member q (all_fragment_paths root after) ≡ true
            → (member q (all_fragment_paths root fs) ≡ true) ⊎ (q ≡ path_of c compress root f.kind))
  unfolding all_fragment_paths
  all_fragment_paths-write fault f fs q s =
      let after = (write c compress root fault f fs).0 in
      let before = member-select (is_listed root) q fs in
      let behind = member-select (is_listed root) q after in
      elim (Bool-cases (is_listed root q)) [
        | inr off ↦ ((λ h. ground arith), (λ h. ground arith))
        | inl on ↦ elim (write_keeps c compress root fault f fs q s (listed-ne-tmp root q _ on)) [
          | inl same ↦ (ground arith, (λ h. inl (ground arith)))
          | inr (bytes, b, p, missing, present) ↦ (ground arith, (λ h. inr p))
        ]
      ]
