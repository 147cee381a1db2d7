-- ===== src/Base/Utf8.antt =====
-- UTF-8 as Rust's standard library checks it: `String::from_utf8`, `String::from_utf8_lossy` and
-- the character boundaries that slicing a text asks for.
use Prim.Native.Nat.{◌<◌, ℕ, zero, suc, ◌-◌, ◌≤◌}
use mathlib.Core.Path.{◌≡◌, refl}
use mathlib.Core.Bool.{Bool, true, false, ◌&&◌}
use mathlib.Core.List.{[], ◌∷◌, ◌++◌}
use native.Mathlib.Omega.{arith}
use nix2rdf.Base.Lists.{length, take, drop, All}
use nix2rdf.Base.Tests.{ltb, leb, ◌==◌, if◌then◌else◌}
use nix2rdf.Base.Text.{Str}

unfoldable pub between : ℕ → ℕ → ℕ → Bool
between lo hi b = leb lo b && leb b hi

-- A continuation byte.
unfoldable pub is_cont : ℕ → Bool
is_cont b = leb 0x80 b && leb b 0xBF

-- How many continuation bytes a first byte asks for; 0 if it cannot stand first.
needed : ℕ → ℕ
unfolding between
needed lead =
    if between 0xC2 0xDF lead
    then 1
    else if between 0xE0 0xEF lead
    then 2
    else if between 0xF0 0xF4 lead
    then 3
    else 0

-- What may follow the first byte: this rules out overlong forms, surrogates and too large values.
second_ok : ℕ → ℕ → Bool
unfolding between is_cont
second_ok lead b =
    if lead == 0xE0
    then between 0xA0 0xBF b
    else if lead == 0xED
    then between 0x80 0x9F b
    else if lead == 0xF0
    then between 0x90 0xBF b
    else if lead == 0xF4
    then between 0x80 0x8F b
    else is_cont b

cont_run : ℕ → Str → ℕ
cont_run zero s = 0
cont_run (suc n) [] = 0
cont_run (suc n) (b ∷ s) = if is_cont b then suc (cont_run n s) else 0

after_lead : ℕ → Str → ℕ
unfolding cont_run second_ok needed
after_lead lead [] = 0
after_lead lead (b ∷ s) = if second_ok lead b then suc (cont_run (needed lead - 1) s) else 0

-- The bytes behind the first one that belong to its chunk, and whether they spell a character.
chunk : ℕ → Str → ℕ × Bool
unfolding after_lead
chunk b s =
    if ltb b 0x80
    then (0, true)
    else if needed b == 0
    then (0, false)
    else (after_lead b s, after_lead b s == needed b)

valid : ℕ → Str → Bool
valid zero s = true
valid (suc f) [] = true
valid (suc f) (b ∷ s) = (chunk b s).1 && valid f (drop (chunk b s).0 s)

-- The fuel is the number of bytes: each chunk has at least one.
unfoldable pub is_utf8 : Str → Bool
unfolding valid chunk
is_utf8 s = valid (length s) s

lossy : ℕ → Str → Str
lossy zero s = []
lossy (suc f) [] = []
lossy (suc f) (b ∷ s) =
    let (n, good) = chunk b s in
    (if good then b ∷ take n s else 0xEF ∷ 0xBF ∷ 0xBD ∷ []) ++ lossy f (drop n s)

unfoldable pub from_utf8_lossy : Str → Str
unfolding lossy chunk
from_utf8_lossy s = lossy (length s) s

take-append-drop : (n : ℕ) (s : Str) → take n s ++ drop n s ≡ s
take-append-drop zero s = refl
take-append-drop (suc n) [] = refl
take-append-drop (suc n) (b ∷ s) = rw (take-append-drop n s)

length-drop : (n : ℕ) (s : Str) → length (drop n s) ≤ length s
length-drop zero s = omega arith
length-drop (suc n) [] = omega arith
length-drop (suc n) (b ∷ s) = omega (arith, length-drop n s)

lossy_of_valid : (f : ℕ) (s : Str) → length s ≤ f → valid f s ≡ true → lossy f s ≡ s
unfolding lossy valid
lossy_of_valid zero [] h v = refl
lossy_of_valid zero (b ∷ s) h v = absurd (omega arith)
lossy_of_valid (suc f) [] h v = refl
lossy_of_valid (suc f) (b ∷ s) h v =
    let n = (chunk b s).0 in
    ground (arith, lossy_of_valid f (drop n s), length-drop n s, take-append-drop n s)

pub from_utf8_lossy_of_is_utf8 : (s : Str) → is_utf8 s ≡ true → from_utf8_lossy s ≡ s
unfolding is_utf8 from_utf8_lossy
from_utf8_lossy_of_is_utf8 s = lossy_of_valid (length s) s (omega arith)

abbrev pub IsAscii : Str → Type 0
IsAscii = All (λ b. b < 0x80)

valid_of_IsAscii : (f : ℕ) (s : Str) → IsAscii s → valid f s ≡ true
unfolding valid chunk
valid_of_IsAscii zero s h = refl
valid_of_IsAscii (suc f) [] h = refl
valid_of_IsAscii (suc f) (b ∷ s) (a, h) = ground (arith, valid_of_IsAscii f s h)

pub is_utf8_of_IsAscii : (s : Str) → IsAscii s → is_utf8 s ≡ true
unfolding is_utf8
is_utf8_of_IsAscii s = valid_of_IsAscii (length s) s

-- `s.is_char_boundary(n)` for what stands from position `n` on.
unfoldable pub at_boundary : Str → Bool
at_boundary [] = true
at_boundary (b ∷ s) = if is_cont b then false else true
