-- ===== src/Extract/NixpkgsIndex.antt =====
-- crates/nix2rdf-core/src/extract/nixpkgs_index.rs: the index of package versions. The three files
-- are read by serde, which is a parameter.
use nix2rdf.Base.{
  ℕ, zero, suc, Bool, true, Option, none, some, List, [], ◌∷◌, Str, codes, if◌then◌else◌,
  strip_prefix, is_some,
}
use nix2rdf.Base.Result.{Result, ok, ◌>>=◌}
use nix2rdf.Base.Steps.{for_each, if_some, ◌▷◌}
use nix2rdf.Crates.{Crates}
use nix2rdf.Fragment.Build.{I64, pos, add_node, add_type, add_str, add_int, add_typed, add_bool}
use nix2rdf.Fragment.Kind.{FragmentKind}
use nix2rdf.Fragment.Lines.{Fragment, new}
use nix2rdf.Hash.Items.{sha256_hex_items}
use nix2rdf.Iri.Instances.{nixpkgs, release, package_version}
use nix2rdf.Nix.Source.{Error}
use nix2rdf.Vocab.{nix, xsd_date}

pub record Revision : Type 0 where
  pub rev : Str
  pub date : Str
  pub name : Str
  pub nar_hash : Str

pub record Release : Type 0 where
  pub build : Option I64
  pub date : Str
  pub name : Str
  pub nar_hash : Str
  pub rev : Str

pub record IndexFiles : Type 0 where
  pub revisions : Str
  pub releases : Str
  pub versions : Str

-- `BTreeMap<String, BTreeMap<String, Option<usize>>>`
abbrev pub Versions : Type 0
Versions = List (Str × List (Str × Option ℕ))

-- What serde reads out of the files.
pub record IndexReader : Type 0 where
  pub revisions_of : Str → Result Error (List Revision)
  pub releases_of : Str → Result Error (List (Str × Release))
  pub versions_of : Str → Result Error Versions

unfoldable pub content_hash : (Str → Str) → IndexFiles → Str
content_hash digest files =
    sha256_hex_items digest (files.revisions ∷ files.releases ∷ files.versions ∷ [])

unfoldable pub get_elem? : {A : Type 0} → List A → ℕ → Option A
get_elem? [] n = none
get_elem? (x ∷ xs) zero = some x
get_elem? (x ∷ xs) (suc n) = get_elem? xs n

unfoldable pub last : {A : Type 0} → List A → Option A
last [] = none
last (x ∷ []) = some x
last (x ∷ y ∷ xs) = last (y ∷ xs)

unfoldable pub non_empty : Str → Option Str
non_empty [] = none
non_empty (b ∷ s) = some (b ∷ s)

unfoldable pub starts_with : Str → Str → Bool
starts_with p s = is_some (strip_prefix p s)

unfoldable pub find_prefix : Str → List Revision → Option Revision
find_prefix p [] = none
find_prefix p (r ∷ rs) = if starts_with p r.rev then some r else find_prefix p rs

unfoldable pub find_revision : IndexReader → IndexFiles → Str → Result Error (Option Revision)
find_revision reader files rev_prefix =
    reader.revisions_of files.revisions >>= λ revisions. ok (find_prefix rev_prefix revisions)

module _ (k : Crates) where
  unfoldable pub revision_node : Revision → Option ℕ → Fragment → Fragment
  revision_node r offset f =
      let n = nixpkgs r.rev in
      f
      ▷ add_type n (nix (codes "NixpkgsRevision"))
      ▷ add_str k.quote n (nix (codes "rev")) r.rev
      ▷ add_typed k.quote n (nix (codes "date")) r.date xsd_date
      ▷ if_some (add_str k.quote n (nix (codes "channelName"))) (non_empty r.name)
      ▷ if_some (add_str k.quote n (nix (codes "narHash"))) (non_empty r.nar_hash)
      ▷ if_some (λ o. add_int k.quote n (nix (codes "indexOffset")) (pos o)) offset

  unfoldable pub add_revisions : ℕ → List Revision → Fragment → Fragment
  add_revisions i [] f = f
  add_revisions i (r ∷ rs) f = add_revisions (suc i) rs (revision_node r (some i) f)

  unfoldable pub add_release : Str × Release → Fragment → Fragment
  add_release (name, rel) f =
      let rn = release name in
      let r : Revision = record {
        rev = rel.rev;
        date = rel.date;
        name = rel.name;
        nar_hash = rel.nar_hash;
      } in
      f
      ▷ add_type rn (nix (codes "Release"))
      ▷ add_str k.quote rn (nix (codes "name")) name
      ▷ add_typed k.quote rn (nix (codes "date")) rel.date xsd_date
      ▷ if_some (add_int k.quote rn (nix (codes "releaseBuild"))) rel.build
      ▷ if_some (add_str k.quote rn (nix (codes "channelName"))) (non_empty rel.name)
      ▷ revision_node r none
      ▷ add_node rn (nix (codes "releasePinnedTo")) (nixpkgs rel.rev)

  unfoldable pub add_seen : Str → Option Revision → Fragment → Fragment
  add_seen pv = if_some (λ r. add_node pv (nix (codes "lastSeenIn")) (nixpkgs r.rev))

  -- A version without an offset is the one at the tip of the index.
  unfoldable pub add_offset : List Revision → Str → Option ℕ → Fragment → Fragment
  add_offset revisions pv (some o) f = add_seen pv (get_elem? revisions o) f
  add_offset revisions pv none f =
      f ▷ add_bool k.quote pv (nix (codes "currentAtIndexTip")) true ▷ add_seen pv (last revisions)

  unfoldable pub add_version : List Revision → Str → Str × Option ℕ → Fragment → Fragment
  add_version revisions attr (version, offset) f =
      let pv = package_version attr version in
      f
      ▷ add_type pv (nix (codes "PackageVersion"))
      ▷ add_str k.quote pv (nix (codes "attrPath")) attr
      ▷ add_str k.quote pv (nix (codes "version")) version
      ▷ add_offset revisions pv offset

  unfoldable pub add_attr : List Revision → Str × List (Str × Option ℕ) → Fragment → Fragment
  add_attr revisions (attr, vers) = for_each (add_version revisions attr) vers

  unfoldable pub index_fragment : IndexReader → IndexFiles → Result Error Fragment
  index_fragment reader files = do
    revisions ← reader.revisions_of files.revisions
    releases ← reader.releases_of files.releases
    versions ← reader.versions_of files.versions
    ok (
        new (FragmentKind.index (content_hash k.digest files))
        ▷ add_revisions 0 revisions
        ▷ for_each add_release releases
        ▷ for_each (add_attr revisions) versions)
