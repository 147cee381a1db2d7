-- ===== src/Base/Paths.antt =====
-- `std::path::FilePath` as its components, and the operations of it that the program calls. A component
-- has no slash and is neither empty nor a dot.
use mathlib.Core.Path.{◌≡◌, refl, ap}
use mathlib.Core.Bool.{Bool, false}
use mathlib.Core.Option.{Option, none, some}
use mathlib.Core.List.{List, [], ◌∷◌, ◌++◌, reverse, reverse-append}
use nix2rdf.Base.Tests.{◌==◌, if◌then◌else◌, is_some}
use nix2rdf.Base.Text.{Str, codes, rsplit_once, str_eq, strip_prefix}

abbrev pub FilePath : Type 0
FilePath = List Str

unfoldable pub push_component : Str → FilePath → FilePath
push_component [] p = p
push_component (c ∷ s) p = if str_eq (c ∷ s) (codes ".") then p else (c ∷ s) ∷ p

-- The components of a text: the part in front that is already read stands reversed.
unfoldable pub split_path : Str → Str → FilePath
split_path part [] = push_component (reverse part) []
split_path part (c ∷ s) =
    let next = split_path [] s in
    let same = split_path (c ∷ part) s in
    if c == b'/' then push_component (reverse part) next else same

unfoldable pub components : Str → FilePath
components s = split_path [] s

-- `join` with a relative path
unfoldable pub join : FilePath → Str → FilePath
join p s = p ++ components s

unfoldable pub map_last : (Str → Str) → FilePath → FilePath
map_last f [] = []
map_last f (x ∷ []) = f x ∷ []
map_last f (x ∷ y ∷ p) = x ∷ map_last f (y ∷ p)

unfoldable pub ends_with : Str → Str → Bool
ends_with suffix s = is_some (strip_prefix (reverse suffix) (reverse s))

-- `to_string_lossy().ends_with(suffix)` for a suffix without a slash.
unfoldable pub path_ends_with : Str → FilePath → Bool
path_ends_with suffix [] = false
path_ends_with suffix (x ∷ []) = ends_with suffix x
path_ends_with suffix (x ∷ y ∷ p) = path_ends_with suffix (y ∷ p)

-- The name without its extension.
unfoldable pub file_stem : Str → Str
file_stem s = elim (rsplit_once b'.' s) [
  | none ↦ s
  | some ([], ext) ↦ s
  | some (c ∷ stem, ext) ↦ c ∷ stem
]

unfoldable pub with_extension : Str → FilePath → FilePath
with_extension ext p = map_last (λ s. file_stem s ++ (b'.' ∷ ext)) p

-- `starts_with` by components
unfoldable pub path_strip_prefix : FilePath → FilePath → Option FilePath
path_strip_prefix [] p = some p
path_strip_prefix (a ∷ d) [] = none
path_strip_prefix (a ∷ d) (b ∷ p) =
    let rest = path_strip_prefix d p in if str_eq a b then rest else none

abbrev pub starts_with : FilePath → FilePath → Bool
starts_with d p = is_some (path_strip_prefix d p)

path_ends-map_last :
    (suffix : Str) (f : Str → Str) (p : FilePath)
    → ((s : Str) → ends_with suffix (f s) ≡ false)
    → path_ends_with suffix (map_last f p) ≡ false
unfolding path_ends_with map_last
path_ends-map_last suffix f [] h = refl
path_ends-map_last suffix f (x ∷ []) h = h x
path_ends-map_last suffix f (x ∷ y ∷ []) h = h y
path_ends-map_last suffix f (x ∷ y ∷ z ∷ p) h = path_ends-map_last suffix f (y ∷ z ∷ p) h

-- The name of a temporary file is not the name of a fragment.
pub path_ends-with_extension :
    (p : FilePath)
    → path_ends_with (codes ".nq.zst") (with_extension (codes "nq.zst.tmp") p) ≡ false
unfolding with_extension ends_with strip_prefix
path_ends-with_extension p =
    path_ends-map_last (codes ".nq.zst") (λ s. file_stem s ++ codes ".nq.zst.tmp") p
      λ s.
        ap (λ r. is_some (strip_prefix (reverse (codes ".nq.zst")) r))
          (reverse-append (file_stem s) (codes ".nq.zst.tmp"))
