-- ===== src/Extract/Derivation/Inputs.antt =====
-- The NAR hashes that `derivation_fragment` of extract/drv.rs reads, and the name of its fragment.
use nix2rdf.Base.{inr, inl, ◌≡◌, refl, ap, List, [], ◌∷◌, Str, All, Option-cases}
use nix2rdf.Base.Map
use nix2rdf.Base.Order.{str_ord}
use nix2rdf.Base.Result.{◌>>=◌}
use nix2rdf.Crates.{Crates}
use nix2rdf.Extract.Derivation.{
  hash_of, add_input_drvs, add_input_srcs, add_outputs, derivation_fragment, describe,
}
use nix2rdf.Fragment.Kind.{FragmentKind}
use nix2rdf.Fragment.Lines.{Fragment, new}
use nix2rdf.Iri.Instances.{drv}
use nix2rdf.Nix.Model.{DrvInfo}

-- Two maps that have the same hash for each of some paths.
abbrev pub Agree : List (Str × Str) → List (Str × Str) → List Str → Type 0
Agree m n = All (λ p. Map.get p m ≡ Map.get p n)

add_input_srcs_congr :
    (k : Crates) (s path : Str) (m n : List (Str × Str)) (srcs : List Str) (f : Fragment)
    → Agree m n srcs
    → add_input_srcs k s path m srcs f ≡ add_input_srcs k s path n srcs f
unfolding add_input_srcs
add_input_srcs_congr k s path m n [] f h = refl
add_input_srcs_congr k s path m n (p ∷ srcs) f (e, h) = elim (Option-cases (Map.get p n)) [
  | inl missing ↦ rw (e, missing) refl
  | inr (nar, there) ↦ rw (e, there) (add_input_srcs_congr k s path m n srcs _ h)
]

-- The fragment of a derivation depends on the derivation, its path and the NAR hashes of its own
-- sources, and on nothing else of the map of hashes.
pub derivation_fragment_congr :
    (k : Crates) (path : Str) (d : DrvInfo) (m n : List (Str × Str))
    → Agree m n d.input_srcs
    → derivation_fragment k path d m ≡ derivation_fragment k path d n
unfolding derivation_fragment
derivation_fragment_congr k path d m n h =
    ap (λ next. hash_of path >>= next)
      (λ i h'.
        add_input_drvs k (drv h') d.input_drvs
          (describe k (drv h') path d (new (FragmentKind.drv h')))
        >>= λ f.
            add_input_srcs_congr k (drv h') path m n d.input_srcs f h i
            >>= add_outputs k (drv h') d.outputs)
