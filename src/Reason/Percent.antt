-- ===== src/Reason/Percent.antt =====
-- `percent_decode` of crates/nix2rdf-core/src/reason.rs, the way back from an encoded segment.
use nix2rdf.Base.{
  inr, Bool-cases, inl, ◌⊎◌, ℕ, ◌+◌, ◌-◌, ◌*◌, ◌/◌, ◌%◌, ◌<◌, ◌≡◌, ◌≢◌, refl, Bool, true, false,
  Option, none, some, [], ◌∷◌, arith, Str, ◌==◌, if◌then◌else◌, ◌>>=◌,
}
use nix2rdf.Base.Outcome
use nix2rdf.Base.Outcome.{Outcome, done, panic}
use nix2rdf.Base.Utf8.{
  between, is_cont, at_boundary, from_utf8_lossy, is_utf8, IsAscii, from_utf8_lossy_of_is_utf8,
}
use nix2rdf.Iri.Base64.{IsBytes}
use nix2rdf.Iri.Segment.{is_safe, hex_upper, encode_byte, encode_segment}

-- One digit for `u8::from_str_radix(_, 16)`.
unfoldable pub hex_value : ℕ → Option ℕ
unfolding between
hex_value c =
    if between b'0' b'9' c
    then some (c - b'0')
    else if between b'a' b'f' c
    then some (c - b'a' + 10)
    else if between b'A' b'F' c
    then some (c - b'A' + 10)
    else none

-- `u8::from_str_radix` on two characters: a leading plus sign is accepted.
unfoldable pub from_hex : ℕ → ℕ → Option ℕ
unfolding hex_value
from_hex c d =
    if c == b'+' then hex_value d else hex_value c >>= λ h. hex_value d >>= λ l. some (h * 16 + l)

-- `&s[i + 1..i + 3]` in front of `rest`: it panics unless it is cut between characters.
unfoldable pub slice_ok : ℕ → Str → Bool
unfolding at_boundary
slice_ok c rest = if is_cont c then false else at_boundary rest

-- The loop, on the text from position `i` on.
unfoldable pub percent_bytes : Str → Outcome Str
percent_bytes (b ∷ c ∷ d ∷ rest) =
    let plain = Outcome.map (λ t. b ∷ t) (percent_bytes (c ∷ d ∷ rest)) in
    let behind = percent_bytes rest in
    if b == b'%'
    then (if slice_ok c rest
        then elim (from_hex c d) [ none ↦ plain | some v ↦ Outcome.map (λ t. v ∷ t) behind ]
        else panic)
    else plain
percent_bytes (b ∷ c ∷ []) = done (b ∷ c ∷ [])
percent_bytes (b ∷ []) = done (b ∷ [])
percent_bytes [] = done []

unfoldable pub percent_decode : Str → Outcome Str
percent_decode s = Outcome.map from_utf8_lossy (percent_bytes s)

percent_bytes_plain :
    (b : ℕ) (s : Str)
    → b ≢ b'%'
    → percent_bytes (b ∷ s) ≡ Outcome.map (λ t. b ∷ t) (percent_bytes s)
unfolding percent_bytes
percent_bytes_plain b [] h = refl
percent_bytes_plain b (c ∷ []) h = refl
percent_bytes_plain b (c ∷ d ∷ s) h = ground arith

hex_value-hex_upper :
    (d : ℕ)
    → d < 16
    → (hex_value (hex_upper d) ≡ some d) × (hex_upper d ≢ b'+') × (is_cont (hex_upper d) ≡ false)
unfolding hex_value hex_upper is_cont
hex_value-hex_upper d h = ground arith

from_hex-hex_upper : (b : ℕ) → b < 256 → from_hex (hex_upper (b / 16)) (hex_upper (b % 16)) ≡ some b
unfolding from_hex
from_hex-hex_upper b h =
    let (high, ne, _) = hex_value-hex_upper (b / 16) (omega arith) in
    let (low, _, _) = hex_value-hex_upper (b % 16) (omega arith) in ground arith

percent_bytes_hex :
    (b : ℕ) (s : Str)
    → b < 256
    → at_boundary s ≡ true
    → percent_bytes (b'%' ∷ hex_upper (b / 16) ∷ hex_upper (b % 16) ∷ s)
      ≡ Outcome.map (λ t. b ∷ t) (percent_bytes s)
unfolding percent_bytes slice_ok
percent_bytes_hex b s h k =
    let (_, _, ascii) = hex_value-hex_upper (b / 16) (omega arith) in
    rw (ascii, k, from_hex-hex_upper b h)

encode_boundary : (s : Str) → IsBytes s → at_boundary (encode_segment s) ≡ true
unfolding encode_segment encode_byte at_boundary is_cont
encode_boundary [] h = refl
encode_boundary (b ∷ s) (p, h) = ground arith

safe_ne_percent : (b : ℕ) → is_safe b ≡ true → b ≢ b'%'
unfolding is_safe
safe_ne_percent b h = ground arith

encode_byte_cases :
    (b : ℕ)
    → ((b ≢ b'%') × (encode_byte b ≡ b ∷ []))
      ⊎ (encode_byte b ≡ b'%' ∷ hex_upper (b / 16) ∷ hex_upper (b % 16) ∷ [])
unfolding encode_byte
encode_byte_cases b = elim (Bool-cases (is_safe b)) [
  | inl safe ↦ inl (safe_ne_percent b safe, ground arith)
  | inr other ↦ inr (ground arith)
]

percent_bytes-encode_segment : (s : Str) → IsBytes s → percent_bytes (encode_segment s) ≡ done s
unfolding encode_segment
percent_bytes-encode_segment [] h = unfold percent_bytes in refl
percent_bytes-encode_segment (b ∷ s) (p, h) = elim (encode_byte_cases b) [
  | inl (plain, e) ↦
      rw (e, percent_bytes_plain b (encode_segment s) plain, percent_bytes-encode_segment s h)
  | inr e ↦ rw (
    e,
    percent_bytes_hex b (encode_segment s) p (encode_boundary s h),
    percent_bytes-encode_segment s h,
  )
]

-- A UTF-8 text that is encoded as a segment is decoded to itself, without a panic.
pub percent_decode-encode_segment :
    (s : Str) → IsBytes s → is_utf8 s ≡ true → percent_decode (encode_segment s) ≡ done s
unfolding percent_decode
percent_decode-encode_segment s h u =
    rw (percent_bytes-encode_segment s h, from_utf8_lossy_of_is_utf8 s u)

slice_ok_of_IsAscii : (c : ℕ) (s : Str) → c < 0x80 → IsAscii s → slice_ok c s ≡ true
unfolding slice_ok at_boundary is_cont
slice_ok_of_IsAscii c [] p h = ground arith
slice_ok_of_IsAscii c (b ∷ s) p (q, h) = ground arith

percent_bytes-ne-panic : (s : Str) → IsAscii s → percent_bytes s ≢ panic
unfolding percent_bytes
percent_bytes-ne-panic [] h = cc
percent_bytes-ne-panic (b ∷ []) h = cc
percent_bytes-ne-panic (b ∷ c ∷ []) h = cc
percent_bytes-ne-panic (b ∷ c ∷ d ∷ s) (hb, (hc, (hd, h))) = ground (
  arith,
  slice_ok_of_IsAscii c s hc h,
  percent_bytes-ne-panic s h,
  percent_bytes-ne-panic (c ∷ d ∷ s) (hc, (hd, h)),
)

-- Decoding an ASCII text never panics.
pub percent_decode-ne-panic : (s : Str) → IsAscii s → percent_decode s ≢ panic
unfolding percent_decode
percent_decode-ne-panic s h = ground (arith, percent_bytes-ne-panic s h)

-- A percent sign, an ASCII character and a two-byte character are cut in the middle: a panic.
pub percent_decode_panics :
    (c d e : ℕ) (rest : Str)
    → c < 128
    → is_cont e ≡ true
    → percent_decode (b'%' ∷ c ∷ d ∷ e ∷ rest) ≡ panic
unfolding percent_decode percent_bytes slice_ok is_cont
percent_decode_panics c d e rest hc he = ground arith
