-- ===== src/Store/Files.antt =====
-- `Store`, `Fragment::write_to` and the reading of a fragment's file. The file system is the map of
-- its files; a call of it that fails is chosen by a `Fault`. Compression is the crate zstd's.
use nix2rdf.Base.{
  ℕ, Bool, true, false, ◌&&◌, not, Option, none, some, List, [], ◌∷◌, Str, codes, length, take,
  if◌then◌else◌, unwrap_or,
}
use nix2rdf.Base.Map
use nix2rdf.Base.Order.{str_ord, list_ord}
use nix2rdf.Base.Paths.{
  FilePath, join, path_ends_with, starts_with, path_strip_prefix, with_extension,
}
use nix2rdf.Base.Utf8.{is_utf8}
use nix2rdf.Fragment.Kind.{FragmentKind, relative_path}
use nix2rdf.Fragment.Lines.{Fragment, Quad, len, to_bytes}
use nix2rdf.Iri.Base64.{Base64}

abbrev pub Files : Type 0
Files = List (FilePath × Str)

pub data Error : Type 0 where
  io other rdf : Error

pub data Result {ℓ} (A : Type ℓ) : Type ℓ where
  ok : A → Result A
  err : Error → Result A

-- `?` and `Ok`
abbrev pub map_result {ℓ κ} : {A : Type ℓ} {B : Type κ} → (A → B) → Result A → Result B
map_result f (Result.ok a) = Result.ok (f a)
map_result f (Result.err e) = Result.err e

-- The call that fails: none, the creation of the directory, the write of the temporary file after
-- it wrote some bytes, or the renaming.
pub data Fault : Type 0 where
  no_fault dirs rename : Fault
  partial : ℕ → Fault

-- `fs::write` replaces the file, `fs::rename` replaces the target.
unfoldable pub rename_file : FilePath → FilePath → Files → Files
rename_file from to fs = elim (Map.get from fs) [
  | none ↦ fs
  | some bytes ↦ Map.insert to bytes (Map.remove from fs)
]

unfoldable pub tmp_path : FilePath → FilePath
tmp_path path = with_extension (codes "nq.zst.tmp") path

-- The part of `write_to` behind the creation of the directory and the compression.
unfoldable pub write_bytes : Fault → FilePath → Str → Files → Files × Result (Unit {0})
write_bytes (Fault.partial n) path bytes fs =
    (Map.insert (tmp_path path) (take n bytes) fs, Result.err Error.io)
write_bytes Fault.rename path bytes fs = (Map.insert (tmp_path path) bytes fs, Result.err Error.io)
write_bytes _ path bytes fs =
    (rename_file (tmp_path path) path (Map.insert (tmp_path path) bytes fs), Result.ok tt)

-- `write_to` on the result of `to_bytes`.
unfoldable pub write_compressed : Fault → FilePath → Option Str → Files → Files × Result (Unit {0})
write_compressed Fault.dirs path bytes fs = (fs, Result.err Error.io)
write_compressed fault path none fs = (fs, Result.err Error.other)
write_compressed fault path (some bytes) fs = write_bytes fault path bytes fs

unfoldable pub write_to :
    Base64 → (Str → Option Str) → Fault → FilePath → Fragment → Files → Files × Result (Unit {0})
write_to c compress fault path f fs = write_compressed fault path (to_bytes c compress f) fs

pub record WriteOutcome : Type 0 where
  pub path : FilePath
  pub kind : FragmentKind
  pub written : Bool
  pub quads : ℕ
  pub bytes : ℕ

-- `fs::metadata(&path).map(|m| m.len()).unwrap_or(0)`
unfoldable pub size : FilePath → Files → ℕ
size path fs = elim (Map.get path fs) [ none ↦ 0 | some bytes ↦ length bytes ]

module _ (c : Base64) (compress : Str → Option Str) (root : FilePath) where
  unfoldable pub path_of : FragmentKind → FilePath
  path_of kind = join root (relative_path c kind)

  unfoldable pub exists : FragmentKind → Files → Bool
  exists kind fs = Map.contains_key (path_of kind) fs

  unfoldable pub outcome : Fragment → Bool → Files → WriteOutcome
  outcome f written fs = record {
    path = path_of f.kind;
    kind = f.kind;
    written = written;
    quads = len f;
    bytes = size (path_of f.kind) fs;
  }

  unfoldable pub overwrite : Fault → Fragment → Files → Files × Result WriteOutcome
  overwrite fault f fs =
      let (after, done) = write_to c compress fault (path_of f.kind) f fs in
      (after, map_result (λ _. outcome f true after) done)

  unfoldable pub write : Fault → Fragment → Files → Files × Result WriteOutcome
  write fault f fs =
      if exists f.kind fs then (fs, Result.ok (outcome f false fs)) else overwrite fault f fs

-- The files below a directory that `all_fragment_paths` and `fragment_paths_under` keep; the map
-- lists its files in the order of their paths, so that sorting them changes nothing.
unfoldable pub select : (FilePath → Bool) → Files → List FilePath
select p [] = []
select p ((path, bytes) ∷ fs) = if p path then path ∷ select p fs else select p fs

unfoldable pub is_fragment_file : FilePath → Bool
is_fragment_file path = path_ends_with (codes ".nq.zst") path

unfoldable pub is_listed : FilePath → FilePath → Bool
is_listed root path =
    starts_with root path
    && (not (starts_with (join root (codes "oxigraph")) path)
        && (not (starts_with (join root (codes "packs")) path) && is_fragment_file path))

unfoldable pub all_fragment_paths : FilePath → Files → List FilePath
all_fragment_paths root fs = select (is_listed root) fs

unfoldable pub fragment_paths_under : FilePath → Str → Files → List FilePath
fragment_paths_under root sub fs =
    select (λ path. starts_with (join root sub) path && is_fragment_file path) fs

unfoldable pub relative : FilePath → FilePath → FilePath
relative root path = unwrap_or path (path_strip_prefix root path)

-- `read_quads`, through `read_nquads_zst`
unfoldable pub read_quads :
    (Str → Option Str) → (Str → Option (List Quad)) → FilePath → Files → Result (List Quad)
read_quads decompress parse_nquads path fs = elim (Map.get path fs) [
  | none ↦ Result.err Error.io
  | some bytes ↦ elim (decompress bytes) [
    | none ↦ Result.err Error.other
    | some raw ↦
        if is_utf8 raw
        then elim (parse_nquads raw) [ none ↦ Result.err Error.rdf | some quads ↦ Result.ok quads ]
        else Result.err Error.rdf
  ]
]
