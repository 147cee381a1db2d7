-- ===== src/Iri/Sample.antt =====
-- A codec of the kind that the program takes from the `base64` crate: two letters for a byte.
use nix2rdf.Base.{
  ◌+◌, ◌-◌, ◌*◌, ◌/◌, ◌%◌, ◌≡◌, refl, true, ◌&&◌, Option, none, some, [], ◌∷◌, arith, All, Str,
  if◌then◌else◌, ◌>>=◌,
}
use nix2rdf.Base.Utf8.{between}
use nix2rdf.Iri.Base64.{Base64, IsBase64, IsBytes, is_url_safe}

pub encode : Str → Str
encode [] = []
encode (b ∷ s) = (b'A' + b / 16) ∷ (b'A' + b % 16) ∷ encode s

pub decode : Str → Option Str
unfolding between
decode [] = some []
decode (a ∷ []) = none
decode (a ∷ b ∷ s) =
    let rest = decode s >>= λ x. some (((a - b'A') * 16 + (b - b'A')) ∷ x) in
    if between b'A' b'P' a && between b'A' b'P' b then rest else none

abbrev pub letters : Base64
letters = record {
  std_encode = encode;
  std_decode = decode;
  url_encode = encode;
  url_decode = decode;
}

decode-encode : (x : Str) → IsBytes x → decode (encode x) ≡ some x
unfolding encode decode
decode-encode [] h = refl
decode-encode (b ∷ s) (p, h) = rw (decode-encode s h) (ground arith)

canonical : (s x : Str) → decode s ≡ some x → encode x ≡ s
unfolding encode decode
canonical [] x h = ground arith
canonical (a ∷ []) x h = cc
canonical (a ∷ b ∷ s) [] h = ground arith
canonical (a ∷ b ∷ s) (c ∷ x) h = ground (arith, canonical s x)

decode-IsBytes : (s x : Str) → decode s ≡ some x → IsBytes x
unfolding decode
decode-IsBytes [] x h = ground arith
decode-IsBytes (a ∷ []) x h = cc
decode-IsBytes (a ∷ b ∷ s) [] h = tt
decode-IsBytes (a ∷ b ∷ s) (c ∷ x) h = ground (arith, decode-IsBytes s x)

encode-url_safe : (x : Str) → IsBytes x → All (λ b. is_url_safe b ≡ true) (encode x)
unfolding encode is_url_safe
encode-url_safe [] h = tt
encode-url_safe (b ∷ s) (p, h) = ground (arith, encode-url_safe s h)

pub letters-IsBase64 : IsBase64 letters
letters-IsBase64 = record {
  url_decode-encode = decode-encode;
  std_canonical = canonical;
  std_bytes = decode-IsBytes;
  url_alphabet = encode-url_safe;
}
