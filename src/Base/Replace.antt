-- ===== src/Base/Replace.antt =====
-- `str::replace` with a text that is not empty.
use nix2rdf.Base.Lists.{length}
use nix2rdf.Base.Text.{Str, strip_prefix}
use Prim.Native.Nat.{ℕ, zero, suc, ◌-◌}
use mathlib.Core.Option.{none, some}
use mathlib.Core.List.{[], ◌∷◌, ◌++◌}

-- `skip` is what is left of a match that was replaced.
unfoldable pub replace_from : Str → Str → ℕ → Str → Str
replace_from pat with skip [] = []
replace_from pat with (suc skip) (b ∷ s) = replace_from pat with skip s
replace_from pat with zero (b ∷ s) =
    let matched = with ++ replace_from pat with (length pat - 1) s in
    let kept = b ∷ replace_from pat with 0 s in
    elim (strip_prefix pat (b ∷ s)) [ none ↦ kept | some rest ↦ matched ]

unfoldable pub replace : Str → Str → Str → Str
replace pat with s = replace_from pat with 0 s
