-- ===== src/Iri/Base64.antt =====
-- The two engines of the `base64` crate that the program calls, `STANDARD` and
-- `URL_SAFE_NO_PAD`, as parameters.
use nix2rdf.Base.{ℕ, ◌<◌, ◌≡◌, Bool, true, Option, some, ◌||◌, All, Str, ◌==◌}
use nix2rdf.Base.Utf8.{between}

pub record Base64 : Type 0 where
  pub std_encode : Str → Str
  pub std_decode : Str → Option Str
  pub url_encode : Str → Str
  pub url_decode : Str → Option Str

abbrev pub IsBytes : Str → Type 0
IsBytes = All (λ b. b < 256)

-- A letter, a digit, `-` or `_`.
unfoldable pub is_url_safe : ℕ → Bool
unfolding between
is_url_safe b =
    between b'A' b'Z' b
    || (between b'a' b'z' b || (between b'0' b'9' b || (b == b'-' || b == b'_')))

-- What the crate documents: an engine reads back what it wrote, a text that `STANDARD` accepts is
-- the canonical one, and the alphabet of the other engine.
pub record IsBase64 (c : Base64) : Type 0 where
  pub url_decode-encode : (x : Str) → IsBytes x → c.url_decode (c.url_encode x) ≡ some x
  pub std_canonical : (s x : Str) → c.std_decode s ≡ some x → c.std_encode x ≡ s
  pub std_bytes : (s x : Str) → c.std_decode s ≡ some x → IsBytes x
  pub url_alphabet : (x : Str) → IsBytes x → All (λ b. is_url_safe b ≡ true) (c.url_encode x)
