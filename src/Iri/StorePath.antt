-- ===== src/Iri/StorePath.antt =====
-- `store_path_hash` and `store_path_name`: the parts of a Nix store path.
use nix2rdf.Base.{
  eq_of_split_once, inr, inl, All-append, split_once_at, Option-cases, rsplit_once_at, false, ℕ,
  ◌≡◌, refl, Bool, true, ◌||◌, ◌&&◌, Option, none, some, [], ◌∷◌, ◌++◌, ◌↔◌, arith, Str, Lacks,
  ◌==◌, if◌then◌else◌, split_once, rsplit_once, length, all, ◌>>=◌,
}
use nix2rdf.Base.Utf8.{between}

unfoldable pub is_alphanumeric : ℕ → Bool
unfolding between
is_alphanumeric b = between b'a' b'z' b || (between b'A' b'Z' b || between b'0' b'9' b)

-- `path.rsplit('/').next()`, which is there for every text.
unfoldable pub base_name : Str → Str
base_name path = elim (rsplit_once b'/' path) [ none ↦ path | some (dir, base) ↦ base ]

unfoldable pub is_hash : Str → Bool
unfolding is_alphanumeric
is_hash hash = length hash == 32 && all is_alphanumeric hash

unfoldable pub store_path_hash : Str → Option Str
store_path_hash path = do
  (hash, name) ← split_once b'-' (base_name path)
  if is_hash hash then some hash else none

unfoldable pub store_path_name : Str → Option Str
store_path_name path = do (hash, name) ← split_once b'-' (base_name path); some name

alphanumeric-Lacks :
    (c : ℕ) (s : Str) → is_alphanumeric c ≡ false → all is_alphanumeric s ≡ true → Lacks c s
alphanumeric-Lacks c [] n h = tt
alphanumeric-Lacks c (b ∷ s) n h = ground (arith, alphanumeric-Lacks c s n)

pub is_hash-Lacks : (c : ℕ) (s : Str) → is_alphanumeric c ≡ false → is_hash s ≡ true → Lacks c s
unfolding is_hash
is_hash-Lacks c s n h = ground (arith, alphanumeric-Lacks c s n)

pub base_name_at : (dir base : Str) → Lacks b'/' base → base_name (dir ++ b'/' ∷ base) ≡ base
unfolding base_name
base_name_at dir base h = rw (rsplit_once_at b'/' dir base h, base_name)

store_path_hash_sound :
    (path h : Str)
    → store_path_hash path ≡ some h
    → (is_hash h ≡ true) × (name : Str) × (base_name path ≡ h ++ b'-' ∷ name)
unfolding store_path_hash
store_path_hash_sound path h e = elim (Option-cases (split_once b'-' (base_name path))) [
  | inl missing ↦ ground arith
  | inr ((x, y), found) ↦
      let (whole, lacks) = eq_of_split_once b'-' (base_name path) x y found in
      let same : (is_hash h ≡ true) × (x ≡ h) = (ground arith, ground arith) in
      (same.0, y, rw (← same.1) whole)
]

dash_apart : is_alphanumeric b'-' ≡ false
unfolding is_alphanumeric
dash_apart = refl

slash_apart : is_alphanumeric b'/' ≡ false
unfolding is_alphanumeric
slash_apart = refl

split_at_dash :
    (h name : Str) → is_hash h ≡ true → split_once b'-' (h ++ b'-' ∷ name) ≡ some (h, name)
split_at_dash h name p = split_once_at b'-' h name (is_hash-Lacks b'-' h dash_apart p)

-- A store path has a hash exactly when its last component is 32 ASCII letters and digits, a dash
-- and a name; the result is the 32 characters.
pub store_path_hash_iff :
    (path h : Str)
    → (store_path_hash path ≡ some h)
      ↔ ((is_hash h ≡ true) × (name : Str) × (base_name path ≡ h ++ b'-' ∷ name))
unfolding store_path_hash
store_path_hash_iff path h =
    (store_path_hash_sound path h, λ (p, name, e). rw (e, split_at_dash h name p, p))

-- The hash and the name are read back from a path that is put together from a directory, a hash of
-- 32 letters and digits and a name without a slash.
pub store_path_parts :
    (dir h name : Str)
    → is_hash h ≡ true
    → Lacks b'/' name
    → (store_path_hash (dir ++ b'/' ∷ (h ++ b'-' ∷ name)) ≡ some h)
      × (store_path_name (dir ++ b'/' ∷ (h ++ b'-' ∷ name)) ≡ some name)
unfolding store_path_hash store_path_name
store_path_parts dir h name p q =
    let base = h ++ b'-' ∷ name in
    let lacks : Lacks b'/' base =
      All-append _ h (b'-' ∷ name) (is_hash-Lacks b'/' h slash_apart p) (omega arith, q) in
    let e : base_name (dir ++ b'/' ∷ base) ≡ base = base_name_at dir base lacks in
    (rw (e, split_at_dash h name p, p), rw (e, split_at_dash h name p))
