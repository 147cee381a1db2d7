-- ===== src/Base/Decimal.antt =====
-- `{n}` for an unsigned number.
use nix2rdf.Base.Tests.{ltb, if◌then◌else◌}
use nix2rdf.Base.Text.{Str}
use Prim.Native.Nat.{ℕ, zero, suc, ◌+◌, ◌-◌, ◌*◌, ◌/◌, ◌%◌, ◌<◌}
use mathlib.Core.Path.{◌≡◌}
use mathlib.Core.List.{[], ◌∷◌}
use native.Mathlib.Omega.{arith}

-- The digits of `n` in front of `out`; the fuel is more than `n`.
digits : ℕ → ℕ → Str → Str
digits zero n out = out
digits (suc f) n out =
    let more = digits f (n / 10) ((b'0' + n % 10) ∷ out) in
    if ltb n 10 then (b'0' + n) ∷ out else more

unfoldable pub format : ℕ → Str
unfolding digits
format n = digits (suc n) n []

-- The number that digits spell behind `acc`.
abbrev value : ℕ → Str → ℕ
value acc [] = acc
value acc (c ∷ s) = value (acc * 10 + (c - b'0')) s

value-digits : (f n : ℕ) (out : Str) → n < f → value 0 (digits f n out) ≡ value n out
unfolding digits
value-digits zero n out h = absurd (omega arith)
value-digits (suc f) n out h = ground (arith, value-digits f (n / 10) ((b'0' + n % 10) ∷ out))

-- The fuel is enough: the digits spell the number.
pub value-format : (n : ℕ) → value 0 (format n) ≡ n
unfolding format
value-format n = value-digits (suc n) n [] (omega arith)
