-- ===== src/Packs/Model.antt =====
-- `PackManifest` and `Pack`, the concatenated rules of a pack and the hash of a rule set.
use nix2rdf.Base.{Option, List, [], ◌∷◌, ◌++◌, Str, codes}
use nix2rdf.Hash.Items.{sha256_hex_items}

pub record PackManifest : Type 0 where
  pub name : Str
  pub version : Str
  pub depends_on : List Str
  pub description : Str

pub record Pack : Type 0 where
  pub manifest : PackManifest
  pub dir : Str
  pub vocab_ttl : Option Str
  -- file names and texts, in load order
  pub rule_files : List (Str × Str)
  pub content_hash : Str

unfoldable pub name : Pack → Str
name p = p.manifest.name

-- The line in front of the text of one file.
unfoldable pub rule_header : Str → Str → Str
rule_header pack file =
    codes "%% ---- " ++ (pack ++ (b'/' ∷ (file ++ (codes " ----" ++ b'\n' ∷ []))))

unfoldable pub files_text : Str → List (Str × Str) → Str
files_text pack [] = []
files_text pack ((file, text) ∷ files) =
    rule_header pack file ++ (text ++ (b'\n' ∷ files_text pack files))

unfoldable pub rules_text : Pack → Str
rules_text p = files_text p.manifest.name p.rule_files

-- What identifies one pack in the hash of a rule set.
unfoldable pub pack_id : Pack → Str
pack_id p = p.manifest.name ++ (b'@' ∷ (p.manifest.version ++ (b'#' ∷ p.content_hash)))

unfoldable pub ruleset_items : List Pack → List Str
ruleset_items [] = []
ruleset_items (p ∷ ps) = pack_id p ∷ rules_text p ∷ ruleset_items ps

unfoldable pub ruleset_hash : (Str → Str) → List Pack → Str
ruleset_hash digest packs = sha256_hex_items digest (ruleset_items packs)
