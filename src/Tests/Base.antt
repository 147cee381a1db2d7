-- ===== src/Tests/Base.antt =====
-- Runs of the helpers.
use nix2rdf.Base.{◌≡◌, refl, true, [], ◌∷◌, ◌++◌, codes}
use nix2rdf.Base.Decimal.{format}
use nix2rdf.Base.Text.{strip_prefix}
use nix2rdf.Base.Trim.{trim_end, trim_end_matches}
use nix2rdf.Base.Utf8.{is_utf8, from_utf8_lossy, is_cont}

trimmed : trim_end (codes "a b \n" ++ 0xC2 ∷ 0xA0 ∷ 0xE3 ∷ 0x80 ∷ 0x80 ∷ []) ≡ codes "a b"
unfolding trim_end
trimmed = refl

suffix_twice : trim_end_matches (codes ".drv") (codes "x.drv.drv") ≡ codes "x"
unfolding trim_end_matches strip_prefix
suffix_twice = refl

accent_is_utf8 : is_utf8 (0xC3 ∷ 0xA9 ∷ []) ≡ true
unfolding is_utf8 is_cont
accent_is_utf8 = refl

truncated : from_utf8_lossy (0xE2 ∷ 0x82 ∷ 0x41 ∷ []) ≡ 0xEF ∷ 0xBF ∷ 0xBD ∷ 0x41 ∷ []
unfolding from_utf8_lossy is_cont
truncated = refl

format_307 : format 307 ≡ codes "307"
unfolding format
format_307 = refl
