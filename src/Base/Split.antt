-- ===== src/Base/Split.antt =====
-- `str::lines`, `split`, and `trim_matches` with a set of bytes.
use Prim.Native.Nat.{ℕ}
use mathlib.Core.Bool.{Bool}
use mathlib.Core.List.{List, [], ◌∷◌, reverse}
use nix2rdf.Base.Tests.{◌==◌, if◌then◌else◌}
use nix2rdf.Base.Text.{Str}

-- The text read so far stands reversed; a carriage return in front of a line break is dropped.
strip_return : Str → Str
strip_return [] = []
strip_return (b ∷ s) = if b == 13 then s else b ∷ s

unfoldable pub lines_after : Str → Str → List Str
unfolding strip_return
lines_after [] [] = []
lines_after (a ∷ part) [] = reverse (a ∷ part) ∷ []
lines_after part (b ∷ s) =
    let next = lines_after [] s in
    let same = lines_after (b ∷ part) s in
    if b == b'\n' then reverse (strip_return part) ∷ next else same

unfoldable pub lines : Str → List Str
lines s = lines_after [] s

-- `split` with one byte
unfoldable pub pieces_after : ℕ → Str → Str → List Str
pieces_after c part [] = reverse part ∷ []
pieces_after c part (b ∷ s) =
    let next = pieces_after c [] s in
    let same = pieces_after c (b ∷ part) s in if b == c then reverse part ∷ next else same

unfoldable pub pieces : ℕ → Str → List Str
pieces c s = pieces_after c [] s

unfoldable pub drop_while : (ℕ → Bool) → Str → Str
drop_while p [] = []
drop_while p (b ∷ s) = let rest = drop_while p s in if p b then rest else b ∷ s

unfoldable pub trim_matches : (ℕ → Bool) → Str → Str
trim_matches p s = reverse (drop_while p (reverse (drop_while p s)))
