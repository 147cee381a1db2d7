-- ===== src/Base/Text.antt =====
-- Text as its list of UTF-8 bytes: literals, equality and the string operations of Rust's
-- standard library that the program calls.
use Prim.Native.Nat.{ℕ}
use Prim.Native.Char.{code}
use Prim.Native.String.{String}
use mathlib.Core.Path.{◌≡◌, refl}
use mathlib.Core.Logic.{◌≢◌, ◌↔◌}
use mathlib.Core.Bool.{Bool, true, false, ◌&&◌}
use mathlib.Core.Option.{Option, none, some}
use mathlib.Core.List.{List, [], ◌∷◌, ◌++◌}
use native.Mathlib.Omega.{arith}
use nix2rdf.Base.Tests.{◌==◌, if◌then◌else◌, ◌>>=◌}
use nix2rdf.Base.Lists.{All}

abbrev pub Str : Type 0
Str = List ℕ

-- The code points of a literal; they are its bytes where the text is ASCII.
abbrev pub codes : String → Str
codes String.[] = []
codes (String.◌∷◌ c s) = code c ∷ codes s

unfoldable pub str_eq : Str → Str → Bool
str_eq [] [] = true
str_eq (a ∷ s) (b ∷ t) = a == b && str_eq s t
str_eq _ _ = false

pub str_eq_refl : (s : Str) → str_eq s s ≡ true
unfolding str_eq
str_eq_refl [] = refl
str_eq_refl (a ∷ s) = ground (arith, str_eq_refl s)

pub eq_of_str_eq : (s t : Str) → str_eq s t ≡ true → s ≡ t
unfolding str_eq
eq_of_str_eq [] [] h = refl
eq_of_str_eq (a ∷ s) (b ∷ t) h = ground (arith, eq_of_str_eq s t)
eq_of_str_eq [] (b ∷ t) h = cc
eq_of_str_eq (a ∷ s) [] h = cc

pub str_eq_iff : (s t : Str) → (str_eq s t ≡ true) ↔ (s ≡ t)
str_eq_iff s t = (eq_of_str_eq s t, λ e. rw e (str_eq_refl t))

-- `strip_prefix` with a text.
unfoldable pub strip_prefix : Str → Str → Option Str
strip_prefix [] s = some s
strip_prefix (a ∷ p) [] = none
strip_prefix (a ∷ p) (b ∷ s) = let rest = strip_prefix p s in if a == b then rest else none

pub strip_prefix-append : (p s : Str) → strip_prefix p (p ++ s) ≡ some s
unfolding strip_prefix
strip_prefix-append [] s = refl
strip_prefix-append (a ∷ p) s = ground (arith, strip_prefix-append p s)

pub eq_of_strip_prefix : (p s r : Str) → strip_prefix p s ≡ some r → s ≡ p ++ r
unfolding strip_prefix
eq_of_strip_prefix [] s r h = ground arith
eq_of_strip_prefix (a ∷ p) [] r h = cc
eq_of_strip_prefix (a ∷ p) (b ∷ s) r h = ground (arith, eq_of_strip_prefix p s r)

-- `split_once` with one byte: the text before the first occurrence and the text behind it.
unfoldable pub split_once : ℕ → Str → Option (Str × Str)
split_once c [] = none
split_once c (b ∷ s) =
    let later = split_once c s >>= λ (x, y). some (b ∷ x, y) in
    if b == c then some ([], s) else later

-- `rsplit_once` with one byte: the text before the last occurrence and the text behind it.
unfoldable pub rsplit_once : ℕ → Str → Option (Str × Str)
rsplit_once c [] = none
rsplit_once c (b ∷ s) = elim (rsplit_once c s) [
  | some (x, y) ↦ some (b ∷ x, y)
  | none ↦ if b == c then some ([], s) else none
]

-- `contains` with one byte.
unfoldable pub contains : ℕ → Str → Bool
contains c [] = false
contains c (b ∷ s) = if b == c then true else contains c s

abbrev pub Lacks : ℕ → Str → Type 0
Lacks c = All (λ b. b ≢ c)

pub split_once_at : (c : ℕ) (x y : Str) → Lacks c x → split_once c (x ++ c ∷ y) ≡ some (x, y)
unfolding split_once
split_once_at c [] y h = ground arith
split_once_at c (b ∷ x) y (n, h) = ground (arith, split_once_at c x y h)

pub split_once_of_Lacks : (c : ℕ) (s : Str) → Lacks c s → split_once c s ≡ none
unfolding split_once
split_once_of_Lacks c [] h = refl
split_once_of_Lacks c (b ∷ s) (n, h) = ground (arith, split_once_of_Lacks c s h)

pub eq_of_split_once :
    (c : ℕ) (s x y : Str) → split_once c s ≡ some (x, y) → (s ≡ x ++ c ∷ y) × Lacks c x
unfolding split_once
eq_of_split_once c [] x y h = cc
eq_of_split_once c (b ∷ s) [] y h = ground arith
eq_of_split_once c (b ∷ s) (d ∷ x) y h = ground (arith, eq_of_split_once c s x y)

pub rsplit_once_of_Lacks : (c : ℕ) (s : Str) → Lacks c s → rsplit_once c s ≡ none
unfolding rsplit_once
rsplit_once_of_Lacks c [] h = refl
rsplit_once_of_Lacks c (b ∷ s) (n, h) = ground (arith, rsplit_once_of_Lacks c s h)

pub rsplit_once_at : (c : ℕ) (x y : Str) → Lacks c y → rsplit_once c (x ++ c ∷ y) ≡ some (x, y)
unfolding rsplit_once
rsplit_once_at c [] y h = ground (arith, rsplit_once_of_Lacks c y h)
rsplit_once_at c (b ∷ x) y h = ground (arith, rsplit_once_at c x y h)

pub contains_of_Lacks : (c : ℕ) (s : Str) → Lacks c s → contains c s ≡ false
unfolding contains
contains_of_Lacks c [] h = refl
contains_of_Lacks c (b ∷ s) (n, h) = ground (arith, contains_of_Lacks c s h)

pub Lacks-of_contains : (c : ℕ) (s : Str) → contains c s ≡ false → Lacks c s
unfolding contains
Lacks-of_contains c [] h = tt
Lacks-of_contains c (b ∷ s) h = ground (arith, Lacks-of_contains c s)
