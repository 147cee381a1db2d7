-- ===== src/Iri/Segment.antt =====
-- `encode_segment` and `nar_hash_segment`: any text as one segment of an IRI's path.
use nix2rdf.Base.{
  All-map, Lacks, All-append, ℕ, ◌+◌, ◌-◌, ◌/◌, ◌%◌, ◌<◌, ◌≢◌, Bool, ◌||◌, none, some, [], ◌∷◌,
  ◌++◌, arith, All, Str, ltb, ◌==◌, if◌then◌else◌, split_once,
}
use nix2rdf.Base.Utf8.{between}
use nix2rdf.Iri.Base64.{Base64, IsBytes}

-- What is kept as it is.
unfoldable pub is_safe : ℕ → Bool
unfolding between
is_safe b =
    between b'A' b'Z' b
    || (between b'a' b'z' b
        || (between b'0' b'9' b
            || (b == b'-'
                || (b == b'.'
                    || (b == b'_'
                        || (b == b'~'
                            || (b == b'@'
                                || (b == b'+'
                                    || (b == b'!'
                                        || (b == b',' || (b == b'=' || b == b':')))))))))))

-- One digit of `{b:02X}`.
unfoldable pub hex_upper : ℕ → ℕ
hex_upper d = if ltb d 10 then b'0' + d else b'A' + (d - 10)

unfoldable pub encode_byte : ℕ → Str
unfolding is_safe hex_upper
encode_byte b = if is_safe b then b ∷ [] else b'%' ∷ hex_upper (b / 16) ∷ hex_upper (b % 16) ∷ []

unfoldable pub encode_segment : Str → Str
encode_segment [] = []
encode_segment (b ∷ s) = encode_byte b ++ encode_segment s

-- The result for the SRI form `<algo>-<base64>`, and for anything else.
unfoldable pub nar_hash_segment : Base64 → Str → Str
nar_hash_segment c sri = elim (split_once b'-' sri) [
  | none ↦ encode_segment sri
  | some (algo, b64) ↦ elim (c.std_decode b64) [
    | none ↦ encode_segment sri
    | some bytes ↦ algo ++ (b'-' ∷ c.url_encode bytes)
  ]
]

-- A byte of an encoded segment.
abbrev pub IsSegmentByte : ℕ → Type 0
IsSegmentByte b = (b < 128) × (b ≢ b'/') × (b ≢ b' ') × (b ≢ b'<') × (b ≢ b'>') × (b ≢ b'"')

encode_byte_clean : (b : ℕ) → b < 256 → All IsSegmentByte (encode_byte b)
unfolding encode_byte
encode_byte_clean b h = ground arith

-- An encoded segment is ASCII without `/`, blanks, angle brackets and quotes.
pub encode_segment_clean : (s : Str) → IsBytes s → All IsSegmentByte (encode_segment s)
unfolding encode_segment
encode_segment_clean [] h = tt
encode_segment_clean (b ∷ s) (p, h) =
    All-append _ (encode_byte b) (encode_segment s) (encode_byte_clean b p)
      (encode_segment_clean s h)

pub encode_segment-Lacks : (s : Str) → IsBytes s → Lacks b'/' (encode_segment s)
encode_segment-Lacks s h = All-map (λ b k. k.1) (encode_segment s) (encode_segment_clean s h)
