-- ===== src/Store/Write.antt =====
-- What a write does to the files, whichever call fails.
use nix2rdf.Base.{
  ◌≡◌, ◌≢◌, ◌⊎◌, ◌∙◌, ap, inl, inr, refl, false, Option, none, some, Str, take, Bool-cases, arith,
  Option-cases,
}
use nix2rdf.Base.Map
use nix2rdf.Base.Order.{str_ord, list_ord}
use nix2rdf.Base.Set.{cmp_eq, eq_of_cmp_eq}
use nix2rdf.Base.Paths.{FilePath}
use nix2rdf.Fragment.Lines.{Fragment, to_bytes}
use nix2rdf.Iri.Base64.{Base64}
use nix2rdf.Store.Files.{
  Files, Fault, Result, rename_file, tmp_path, write_bytes, write_to, write_compressed, path_of,
  exists, outcome, overwrite, write,
}

cmp_eq_of_ne : (p q : FilePath) → p ≢ q → cmp_eq p q ≡ false
cmp_eq_of_ne p q n = elim (Bool-cases (cmp_eq p q)) [
  | inl h ↦ absurd (n (eq_of_cmp_eq p q h))
  | inr h ↦ h
]

-- A file is as it was, or it is the written one and holds all the bytes.
abbrev Written : FilePath → Str → FilePath → Files → Files → Type 0
Written path bytes q before after =
    (Map.get q after ≡ Map.get q before) ⊎ ((q ≡ path) × (Map.get q after ≡ some bytes))

get_other :
    (q p : FilePath) (bytes : Str) (fs : Files)
    → q ≢ p
    → Map.get q (Map.insert p bytes fs) ≡ Map.get q fs
get_other q p bytes fs n = Map.get-insert_other p q bytes fs (cmp_eq_of_ne q p n)

rename_present :
    (tmp path : FilePath) (bytes : Str) (fs : Files)
    → Map.get tmp fs ≡ some bytes
    → rename_file tmp path fs ≡ Map.insert path bytes (Map.remove tmp fs)
unfolding rename_file
rename_present tmp path bytes fs h = ground arith

pub rename_file-eq :
    (tmp path : FilePath) (bytes : Str) (fs : Files)
    → rename_file tmp path (Map.insert tmp bytes fs)
      ≡ Map.insert path bytes (Map.remove tmp (Map.insert tmp bytes fs))
rename_file-eq tmp path bytes fs =
    rename_present tmp path bytes _ (Map.get-insert_self tmp bytes fs)

rename_file-Written :
    (tmp path : FilePath) (bytes : Str) (fs : Files) (q : FilePath)
    → Map.IsSorted fs
    → q ≢ tmp
    → Written path bytes q fs (rename_file tmp path (Map.insert tmp bytes fs))
rename_file-Written tmp path bytes fs q s n =
    let fs' = Map.insert tmp bytes fs in
    let e = ap (Map.get q) (rename_file-eq tmp path bytes fs) in
    elim (Bool-cases (cmp_eq q path)) [
      | inl same ↦
          let p = eq_of_cmp_eq q path same in
          inr (p, e ∙ rw p (Map.get-insert_self path bytes (Map.remove tmp fs')))
      | inr other ↦ inl (
          e
          ∙ Map.get-insert_other path q bytes (Map.remove tmp fs') other
          ∙ Map.get-remove_other tmp q fs' (Map.insert-IsSorted tmp bytes fs s)
              (cmp_eq_of_ne q tmp n)
          ∙ get_other q tmp bytes fs n)
    ]

write_bytes-Written :
    (fault : Fault) (path : FilePath) (bytes : Str) (fs : Files) (q : FilePath)
    → Map.IsSorted fs
    → q ≢ tmp_path path
    → Written path bytes q fs (write_bytes fault path bytes fs).0
unfolding write_bytes
write_bytes-Written (Fault.partial m) path bytes fs q s n = inl (get_other q _ (take m bytes) fs n)
write_bytes-Written Fault.rename path bytes fs q s n = inl (get_other q _ bytes fs n)
write_bytes-Written Fault.no_fault path bytes fs q s n = rename_file-Written _ path bytes fs q s n
write_bytes-Written Fault.dirs path bytes fs q s n = rename_file-Written _ path bytes fs q s n

all_bytes :
    (path q : FilePath) (before after : Files) (bytes : Str)
    → Written path bytes q before after
    → (Map.get q after ≡ Map.get q before)
      ⊎ ((b : Str) × (some bytes ≡ some b) × (q ≡ path) × (Map.get q after ≡ some b))
all_bytes path q before after bytes (inl h) = inl h
all_bytes path q before after bytes (inr (p, h)) = inr (bytes, refl, p, h)

write_compressed-Written :
    (fault : Fault) (path : FilePath) (o : Option Str) (fs : Files) (q : FilePath)
    → Map.IsSorted fs
    → q ≢ tmp_path path
    → let after = (write_compressed fault path o fs).0 in
      (Map.get q after ≡ Map.get q fs)
      ⊎ ((bytes : Str) × (o ≡ some bytes) × (q ≡ path) × (Map.get q after ≡ some bytes))
unfolding write_compressed
write_compressed-Written Fault.dirs path o fs q s n = inl refl
write_compressed-Written Fault.no_fault path none fs q s n = inl refl
write_compressed-Written Fault.rename path none fs q s n = inl refl
write_compressed-Written (Fault.partial m) path none fs q s n = inl refl
write_compressed-Written Fault.no_fault path (some bytes) fs q s n =
    all_bytes path q _ _ bytes (write_bytes-Written Fault.no_fault path bytes fs q s n)
write_compressed-Written Fault.rename path (some bytes) fs q s n =
    all_bytes path q _ _ bytes (write_bytes-Written Fault.rename path bytes fs q s n)
write_compressed-Written (Fault.partial m) path (some bytes) fs q s n =
    all_bytes path q _ _ bytes (write_bytes-Written (Fault.partial m) path bytes fs q s n)

module _ (c : Base64) (compress : Str → Option Str) where
  -- The bytes that a fragment is stored as.
  abbrev pub IsStoredAs : Fragment → Str → Type 0
  IsStoredAs f bytes = to_bytes c compress f ≡ some bytes

  write_to-Written :
      (fault : Fault) (path : FilePath) (f : Fragment) (fs : Files) (q : FilePath)
      → Map.IsSorted fs
      → q ≢ tmp_path path
      → let after = (write_to c compress fault path f fs).0 in
        (Map.get q after ≡ Map.get q fs)
        ⊎ ((bytes : Str) × IsStoredAs f bytes × (q ≡ path) × (Map.get q after ≡ some bytes))
  unfolding write_to
  write_to-Written fault path f fs q s n =
      write_compressed-Written fault path (to_bytes c compress f) fs q s n

module _ (c : Base64) (compress : Str → Option Str) (root : FilePath) where
  -- Whichever call fails, a reader of a file that is not the temporary one finds what was there
  -- before, or, in the fragment's place, all the bytes of the fragment. The map of files is sorted.
  pub overwrite_atomic :
      (fault : Fault) (f : Fragment) (fs : Files) (q : FilePath)
      → Map.IsSorted fs
      → q ≢ tmp_path (path_of c compress root f.kind)
      → let after = (overwrite c compress root fault f fs).0 in
        (Map.get q after ≡ Map.get q fs)
        ⊎ ((bytes : Str) × IsStoredAs c compress f bytes
            × (q ≡ path_of c compress root f.kind)
            × (Map.get q after ≡ some bytes))
  unfolding overwrite
  overwrite_atomic fault f fs q s n =
      write_to-Written c compress fault (path_of c compress root f.kind) f fs q s n

  pub write_missing :
      (fault : Fault) (f : Fragment) (fs : Files)
      → Map.get (path_of c compress root f.kind) fs ≡ none
      → write c compress root fault f fs ≡ overwrite c compress root fault f fs
  unfolding write exists
  write_missing fault f fs h = ground arith

  pub write_present :
      (fault : Fault) (f : Fragment) (fs : Files) (old : Str)
      → Map.get (path_of c compress root f.kind) fs ≡ some old
      → write c compress root fault f fs ≡ (fs, Result.ok (outcome c compress root f false fs))
  unfolding write exists
  write_present fault f fs old h = ground arith

  -- A write changes no file that exists, whichever call fails: a reader of a file that is not the
  -- temporary one finds it as before, or it is the fragment's file, was missing and holds all the
  -- bytes of the fragment. The map of files is sorted.
  pub write_keeps :
      (fault : Fault) (f : Fragment) (fs : Files) (q : FilePath)
      → Map.IsSorted fs
      → q ≢ tmp_path (path_of c compress root f.kind)
      → let after = (write c compress root fault f fs).0 in
        (Map.get q after ≡ Map.get q fs)
        ⊎ ((bytes : Str) × IsStoredAs c compress f bytes
            × (q ≡ path_of c compress root f.kind)
            × (Map.get q fs ≡ none)
            × (Map.get q after ≡ some bytes))
  write_keeps fault f fs q s n = elim (Option-cases (Map.get (path_of c compress root f.kind) fs)) [
    | inl missing ↦ elim (overwrite_atomic fault f fs q s n) [
      | inl h ↦ inl (ap (Map.get q) (ap (λ r. r.0) (write_missing fault f fs missing)) ∙ h)
      | inr (bytes, b, p, h) ↦ inr (
        bytes,
        b,
        p,
        ap (λ x. Map.get x fs) p ∙ missing,
        ap (Map.get q) (ap (λ r. r.0) (write_missing fault f fs missing)) ∙ h,
      )
    ]
    | inr (old, present) ↦
        inl (ap (Map.get q) (ap (λ r. r.0) (write_present fault f fs old present)))
  ]
