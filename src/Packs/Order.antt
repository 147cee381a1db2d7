-- ===== src/Packs/Order.antt =====
-- Load order: every pack behind the packs that it depends on, and no pack twice.
use nix2rdf.Base.{◌≡◌, refl, true, false, ◌||◌, List, [], ◌∷◌, ◌++◌, Str, arith}
use nix2rdf.Base.Order.{str_ord}
use nix2rdf.Base.Set.{member}
use nix2rdf.Packs.Model.{Pack, name}

unfoldable pub names : List Pack → List Str
names [] = []
names (p ∷ ps) = name p ∷ names ps

-- Every dependency was seen before the pack, and the pack was not.
abbrev pub IsReady : List Str → Pack → Type 0
IsReady seen p =
    ((d : Str) → member d p.manifest.depends_on ≡ true → member d seen ≡ true)
    × (member (name p) seen ≡ false)

abbrev pub IsOrdered : List Str → List Pack → Type 0
IsOrdered seen [] = Unit
IsOrdered seen (p ∷ ps) = IsReady seen p × IsOrdered (name p ∷ seen) ps

pub member-names_append :
    (n : Str) (ps : List Pack) (p : Pack)
    → member n (names (ps ++ p ∷ [])) ≡ member n (name p ∷ names ps)
unfolding names member
member-names_append n [] p = refl
member-names_append n (q ∷ ps) p = ground (arith, member-names_append n ps p)

IsReady-congr :
    (seen seen' : List Str) (p : Pack)
    → ((n : Str) → member n seen ≡ member n seen')
    → IsReady seen p
    → IsReady seen' p
IsReady-congr seen seen' p e (deps, new) =
    ((λ d h. ground (arith, e d, deps d)), ground (arith, e (name p)))

member_swap :
    (n a b : Str) (s t : List Str)
    → ((n : Str) → member n s ≡ member n (a ∷ t))
    → member n (b ∷ s) ≡ member n (a ∷ b ∷ t)
unfolding member
member_swap n a b s t e = ground (arith, e n)

-- A pack that is ready behind the others goes last.
pub IsOrdered-append :
    (seen : List Str) (ps : List Pack) (p : Pack) (all : List Str)
    → ((n : Str) → member n all ≡ (member n (names ps) || member n seen))
    → IsOrdered seen ps
    → IsReady all p
    → IsOrdered seen (ps ++ p ∷ [])
unfolding names member
IsOrdered-append seen [] p all e o r = (IsReady-congr all seen p (λ n. ground (arith, e n)) r, tt)
IsOrdered-append seen (q ∷ ps) p all e (qr, o) r =
    (qr, IsOrdered-append (name q ∷ seen) ps p all (λ n. ground (arith, e n)) o r)
