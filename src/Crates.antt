-- ===== src/Crates.antt =====
-- What the extractors call of other crates, as parameters: base64, the literals of oxrdf, SHA-256
-- with its hexadecimal print, and serde_json.
use nix2rdf.Base.{Option, Str}
use nix2rdf.Hash.Json.{Json, Number}
use nix2rdf.Iri.Base64.{Base64}

pub record Crates : Type 0 where
  pub base64 : Base64
  -- `Literal::new_simple_literal` as it is displayed: the text in quotes, escaped
  pub quote : Str → Str
  pub digest : Str → Str
  pub json_from_str : Str → Option Json
  pub json_to_string : Json → Str
  -- `Number::to_string`
  pub print_number : Number → Str
