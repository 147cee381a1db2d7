-- ===== src/Packs/Prefixes.antt =====
-- `collect_prefixes`: the prefix declarations of all packs, once each, and the rules without them.
use nix2rdf.Base.{
  ◌⊎◌, ℕ, ◌≡◌, Bool, ◌||◌, none, some, List, [], ◌∷◌, ◌++◌, Str, codes, ◌==◌, if◌then◌else◌, str_eq,
  split_once, strip_prefix,
}
use nix2rdf.Base.Map
use nix2rdf.Base.Order.{str_ord}
use nix2rdf.Base.Split.{lines, trim_matches}
use nix2rdf.Base.Trim.{trim, trim_end_matches}
use nix2rdf.Packs.Model.{Pack, rule_header}

pub data PrefixError : Type 0 where
  bad_line : Str → PrefixError
  conflict : Str → Str → Str → PrefixError

pub data Result {ℓ} (A : Type ℓ) : Type ℓ where
  ok : A → Result A
  err : PrefixError → Result A

infixl 5 ◌>>=◌
abbrev pub ◌>>=◌ {ℓ κ} : {A : Type ℓ} {B : Type κ} → Result A → (A → Result B) → Result B
ok a >>= f = f a
err e >>= f = err e

abbrev pub Prefixes : Type 0
Prefixes = List (Str × Str)

is_angle : ℕ → Bool
is_angle b = b == b'<' || b == b'>'

-- A line is a rule, a declaration, or a declaration that cannot be read.
pub data Line : Type 0 where
  rule bad : Line
  declaration : Str → Str → Line

unfoldable pub read_line : Str → Line
unfolding is_angle
read_line line = elim (strip_prefix (codes "@prefix") (trim line)) [
  | none ↦ rule
  | some rest ↦ elim (split_once b':' (trim (trim_end_matches (codes ".") (trim rest)))) [
    | none ↦ bad
    | some (pfx, iri) ↦ declaration (trim pfx) (trim_matches is_angle (trim iri))
  ]
]

-- The prefixes so far and the text of the rules so far.
abbrev pub State : Type 0
State = Prefixes × Str

unfoldable pub declare : Str → Str → Prefixes → Result Prefixes
declare pfx iri prefixes = elim (Map.get pfx prefixes) [
  | none ↦ ok (Map.insert pfx iri prefixes)
  | some prev ↦ if str_eq prev iri then ok prefixes else err (conflict pfx prev iri)
]

unfoldable pub add_read : Str → Str → Line → State → Result State
add_read pack line rule (prefixes, body) = ok (prefixes, body ++ (line ++ b'\n' ∷ []))
add_read pack line bad st = err (bad_line pack)
add_read pack line (declaration pfx iri) (prefixes, body) =
    declare pfx iri prefixes >>= λ ps. ok (ps, body)

unfoldable pub add_line : Str → Str → State → Result State
add_line pack line st = add_read pack line (read_line line) st

unfoldable pub add_lines : Str → List Str → State → Result State
add_lines pack [] st = ok st
add_lines pack (l ∷ ls) st = add_line pack l st >>= λ next. add_lines pack ls next

unfoldable pub add_files : Str → List (Str × Str) → State → Result State
add_files pack [] st = ok st
add_files pack ((file, text) ∷ files) (prefixes, body) =
    add_lines pack (lines text) (prefixes, body ++ rule_header pack file) >>= λ next.
    add_files pack files next

unfoldable pub add_packs : List Pack → State → Result State
add_packs [] st = ok st
add_packs (p ∷ ps) st = add_files p.manifest.name p.rule_files st >>= λ next. add_packs ps next

unfoldable pub collect_prefixes : List Pack → Result State
collect_prefixes packs = add_packs packs ([], [])

-- A declaration in one of the packs.
abbrev pub DeclaresLine : List Str → Str → Str → Type 0
DeclaresLine [] pfx iri = ⊥
DeclaresLine (l ∷ ls) pfx iri = (read_line l ≡ declaration pfx iri) ⊎ DeclaresLine ls pfx iri

abbrev pub DeclaresFile : List (Str × Str) → Str → Str → Type 0
DeclaresFile [] pfx iri = ⊥
DeclaresFile ((file, text) ∷ files) pfx iri =
    DeclaresLine (lines text) pfx iri ⊎ DeclaresFile files pfx iri

abbrev pub Declares : List Pack → Str → Str → Type 0
Declares [] pfx iri = ⊥
Declares (p ∷ ps) pfx iri = DeclaresFile p.rule_files pfx iri ⊎ Declares ps pfx iri
