-- ===== src/Kubernetes/Images.antt =====
-- Image references of k8s/model.rs.
use nix2rdf.Base.{
  ℕ, ◌+◌, ◌≡◌, Bool, ◌&&◌, ◌||◌, Option, none, some, [], ◌∷◌, ◌++◌, Str, codes, ◌==◌, if◌then◌else◌,
  split_once, rsplit_once, strip_prefix, length, all, All-append, Lacks, arith, split_once_at,
  split_once_of_Lacks, rsplit_once_at, rsplit_once_of_Lacks,
}
use nix2rdf.Base.Utf8.{between}

-- The repository and the tag of a reference without its digest: a colon behind the last slash.
unfoldable pub split_tag : Str → Str × Option Str
split_tag rest = elim (rsplit_once b'/' rest) [
  | none ↦ elim (rsplit_once b':' rest) [ none ↦ (rest, none) | some (n, t) ↦ (n, some t) ]
  | some (dir, file) ↦ elim (rsplit_once b':' file) [
    | none ↦ (rest, none)
    | some (n, t) ↦ (dir ++ (b'/' ∷ n), some t)
  ]
]

unfoldable pub parse_image_ref : Str → Str × Option Str × Option Str
parse_image_ref r = elim (split_once b'@' r) [
  | none ↦ let (repo, tag) = split_tag r in (repo, tag, none)
  | some (a, d) ↦ let (repo, tag) = split_tag a in (repo, tag, some d)
]

is_hexdigit : ℕ → Bool
unfolding between
is_hexdigit b = between b'0' b'9' b || (between b'a' b'f' b || between b'A' b'F' b)

lower : ℕ → ℕ
unfolding between
lower b = if between b'A' b'Z' b then b + 32 else b

to_ascii_lowercase : Str → Str
unfolding lower
to_ascii_lowercase [] = []
to_ascii_lowercase (b ∷ s) = lower b ∷ to_ascii_lowercase s

unfoldable pub digest_hex : Str → Option Str
unfolding is_hexdigit to_ascii_lowercase
digest_hex d = elim (strip_prefix (codes "sha256:") d) [
  | none ↦ none
  | some h ↦ if length h == 64 && all is_hexdigit h then some (to_ascii_lowercase h) else none
]

-- A repository is a name, with a directory in front of a slash or without one.
unfoldable pub repository : Option Str → Str → Str
repository none n = n
repository (some dir) n = dir ++ (b'/' ∷ n)

unfoldable pub with_tag : Str → Option Str → Str
with_tag n none = n
with_tag n (some t) = n ++ (b':' ∷ t)

unfoldable pub with_digest : Str → Option Str → Str
with_digest r none = r
with_digest r (some d) = r ++ (b'@' ∷ d)

abbrev pub IsName : Str → Type 0
IsName n = Lacks b'/' n × Lacks b':' n × Lacks b'@' n

abbrev pub OptIsName : Option Str → Type 0
OptIsName none = Unit
OptIsName (some t) = IsName t

abbrev pub OptLacksAt : Option Str → Type 0
OptLacksAt none = Unit
OptLacksAt (some dir) = Lacks b'@' dir

with_tag-slash :
    (n : Str) (tag : Option Str) → IsName n → OptIsName tag → Lacks b'/' (with_tag n tag)
unfolding with_tag
with_tag-slash n none h k = h.0
with_tag-slash n (some t) h k = All-append _ n (b':' ∷ t) h.0 (omega arith, k.0)

split_tag-with_tag :
    (dir : Option Str) (n : Str) (tag : Option Str)
    → IsName n
    → OptIsName tag
    → split_tag (repository dir (with_tag n tag)) ≡ (repository dir n, tag)
unfolding split_tag repository with_tag
split_tag-with_tag none n none h k =
    ground (arith, rsplit_once_of_Lacks b'/' n h.0, rsplit_once_of_Lacks b':' n h.1)
split_tag-with_tag none n (some t) h k = ground (
  arith,
  rsplit_once_of_Lacks b'/' (n ++ (b':' ∷ t)) (with_tag-slash n (some t) h k),
  rsplit_once_at b':' n t k.1,
)
split_tag-with_tag (some dir) n none h k =
    ground (arith, rsplit_once_at b'/' dir n h.0, rsplit_once_of_Lacks b':' n h.1)
split_tag-with_tag (some dir) n (some t) h k = ground (
  arith,
  rsplit_once_at b'/' dir (n ++ (b':' ∷ t)) (with_tag-slash n (some t) h k),
  rsplit_once_at b':' n t k.1,
)

with_tag-at :
    (dir : Option Str) (n : Str) (tag : Option Str)
    → OptLacksAt dir
    → IsName n
    → OptIsName tag
    → Lacks b'@' (repository dir (with_tag n tag))
unfolding with_tag repository
with_tag-at none n none d h k = h.2
with_tag-at none n (some t) d h k = All-append _ n (b':' ∷ t) h.2 (omega arith, k.2)
with_tag-at (some dir) n none d h k = All-append _ dir (b'/' ∷ n) d (omega arith, h.2)
with_tag-at (some dir) n (some t) d h k =
    All-append _ dir (b'/' ∷ (n ++ (b':' ∷ t))) d
      (omega arith, All-append _ n (b':' ∷ t) h.2 (omega arith, k.2))

-- A reference is split into the repository, the tag and the digest that it was put together from,
-- also where the registry has a port. The last part of the repository and the tag have no slash,
-- colon or at sign, and the directory has no at sign.
pub parse_image_ref-with_digest :
    (dir : Option Str) (n : Str) (tag digest : Option Str)
    → OptLacksAt dir
    → IsName n
    → OptIsName tag
    → parse_image_ref (with_digest (repository dir (with_tag n tag)) digest)
      ≡ (repository dir n, tag, digest)
unfolding parse_image_ref with_digest
parse_image_ref-with_digest dir n tag none d h k = ground (
  arith,
  split_once_of_Lacks b'@' _ (with_tag-at dir n tag d h k),
  split_tag-with_tag dir n tag h k,
)
parse_image_ref-with_digest dir n tag (some x) d h k = ground (
  arith,
  split_once_at b'@' (repository dir (with_tag n tag)) x (with_tag-at dir n tag d h k),
  split_tag-with_tag dir n tag h k,
)
