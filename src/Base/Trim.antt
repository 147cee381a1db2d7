-- ===== src/Base/Trim.antt =====
-- `trim_end` and `trim_end_matches`, on the bytes read backwards.
use Prim.Native.Nat.{ℕ, zero, suc}
use mathlib.Core.Path.{◌≡◌, refl, ap, sym, ◌∙◌}
use mathlib.Core.Bool.{Bool, ◌&&◌, ◌||◌}
use mathlib.Core.Option.{none, some}
use mathlib.Core.List.{[], ◌∷◌, ◌++◌, reverse, reverse-append, reverse-reverse}
use native.Mathlib.Omega.{arith}
use nix2rdf.Base.Lists.{length, drop}
use nix2rdf.Base.Tests.{◌==◌, if◌then◌else◌}
use nix2rdf.Base.Text.{Str, strip_prefix}
use nix2rdf.Base.Utf8.{between}

is_ascii_white : ℕ → Bool
unfolding between
is_ascii_white b = between 9 13 b || b == 32

-- Two bytes that spell a `White_Space` character, the last one first.
is_white_two : ℕ → ℕ → Bool
is_white_two b a = a == 0xC2 && (b == 0x85 || b == 0xA0)

is_white_three : ℕ → ℕ → ℕ → Bool
unfolding between
is_white_three c b a =
    a == 0xE1 && (b == 0x9A && c == 0x80)
    || (a == 0xE2 && (b == 0x80 && (between 0x80 0x8A c || (c == 0xA8 || (c == 0xA9 || c == 0xAF))))
        || (a == 0xE2 && (b == 0x81 && c == 0x9F) || a == 0xE3 && (b == 0x80 && c == 0x80)))

-- The number of bytes of the whitespace character in front; 0 if there is none.
white : Str → ℕ
unfolding is_ascii_white is_white_two is_white_three
white [] = 0
white (c ∷ []) = if is_ascii_white c then 1 else 0
white (c ∷ b ∷ []) = if is_ascii_white c then 1 else if is_white_two c b then 2 else 0
white (c ∷ b ∷ a ∷ s) =
    if is_ascii_white c
    then 1
    else if is_white_two c b
    then 2
    else if is_white_three c b a
    then 3
    else 0

-- The fuel is the number of bytes.
skip_white : ℕ → Str → Str
skip_white zero s = s
skip_white (suc f) s =
    let rest = skip_white f (drop (white s) s) in if white s == 0 then s else rest

unfoldable pub trim_end : Str → Str
unfolding skip_white white
trim_end s = reverse (skip_white (length s) (reverse s))

-- The number of bytes of the whitespace character that a text begins with.
white_front : Str → ℕ
unfolding is_ascii_white is_white_two is_white_three
white_front [] = 0
white_front (a ∷ []) = if is_ascii_white a then 1 else 0
white_front (a ∷ b ∷ []) = if is_ascii_white a then 1 else if is_white_two b a then 2 else 0
white_front (a ∷ b ∷ c ∷ s) =
    if is_ascii_white a
    then 1
    else if is_white_two b a
    then 2
    else if is_white_three c b a
    then 3
    else 0

skip_white_front : ℕ → Str → Str
skip_white_front zero s = s
skip_white_front (suc f) s =
    let rest = skip_white_front f (drop (white_front s) s) in if white_front s == 0 then s else rest

unfoldable pub trim_start : Str → Str
unfolding skip_white_front white_front
trim_start s = skip_white_front (length s) s

unfoldable pub trim : Str → Str
trim s = trim_end (trim_start s)

skip_matches : ℕ → Str → Str → Str
skip_matches zero p s = s
skip_matches (suc f) p s = elim (strip_prefix p s) [ none ↦ s | some rest ↦ skip_matches f p rest ]

-- `s.trim_end_matches(pattern)` for a pattern that is not empty.
unfoldable pub trim_end_matches : Str → Str → Str
unfolding skip_matches
trim_end_matches pattern s = reverse (skip_matches (length s) (reverse pattern) (reverse s))

skip_white_stop : (f : ℕ) (s : Str) → white s ≡ 0 → skip_white f s ≡ s
unfolding skip_white
skip_white_stop zero s h = refl
skip_white_stop (suc f) s h = ground arith

paren_stays : (s : Str) → white (b')' ∷ s) ≡ 0
unfolding white
paren_stays [] = refl
paren_stays (b ∷ []) = ground arith
paren_stays (b ∷ a ∷ s) = ground arith

-- Text that ends in a closing parenthesis is not trimmed.
pub trim_end_of_paren : (s : Str) → trim_end (s ++ b')' ∷ []) ≡ s ++ b')' ∷ []
unfolding trim_end
trim_end_of_paren s =
    let n = length (s ++ b')' ∷ []) in
    let e : reverse (s ++ b')' ∷ []) ≡ b')' ∷ reverse s = reverse-append s (b')' ∷ []) in
    let kept : skip_white n (reverse (s ++ b')' ∷ [])) ≡ b')' ∷ reverse s =
      rw e (skip_white_stop n (b')' ∷ reverse s) (paren_stays (reverse s))) in
    ap reverse (kept ∙ sym e) ∙ reverse-reverse (s ++ b')' ∷ [])
