-- ===== src/Hash/Items.antt =====
-- `sha256_hex`, `sha256_hex_items` and `short`. SHA-256 and the hexadecimal print of its result
-- come from crates: `digest` stands for `hex::encode` after `Sha256`.
use native.Mathlib.Nat.{pow-suc, mul_comm}
use nix2rdf.Base.{
  ap, str_eq_refl, append_assoc, ◌∙◌, sym, ℕ, zero, suc, ◌*◌, ◌/◌, ◌%◌, ◌^◌, ◌<◌, ◌≡◌, ◌≢◌, refl,
  true, ◌⊎◌, inl, inr, List, [], ◌∷◌, ◌++◌, arith, All, Str, length, take, if◌then◌else◌, str_eq,
  eq_of_str_eq, Bool-cases, drop,
}
use nix2rdf.Base.Outcome.{Outcome, done, panic}
use nix2rdf.Base.Utf8.{is_cont, at_boundary, IsAscii}

-- The `w` low bytes of `n`, the lowest first: `to_le_bytes` at `w` = 8.
unfoldable pub le_bytes : ℕ → ℕ → Str
le_bytes zero n = []
le_bytes (suc w) n = (n % 256) ∷ le_bytes w (n / 256)

-- What one item adds to the hasher: its length as a `u64`, then its bytes.
unfoldable pub frame : Str → Str
frame item = le_bytes 8 (length item % 2 ^ 64) ++ item

unfoldable pub frames : List Str → Str
frames [] = []
frames (item ∷ items) = frame item ++ frames items

-- `&hash[..hash.len().min(16)]`
unfoldable pub short : Str → Outcome Str
short hash = if at_boundary (drop 16 hash) then done (take 16 hash) else panic

module _ (digest : Str → Str) where
  unfoldable pub sha256_hex : Str → Str
  sha256_hex bytes = digest bytes

  unfoldable pub sha256_hex_items : List Str → Str
  sha256_hex_items items = digest (frames items)

ascii_boundary : (n : ℕ) (s : Str) → IsAscii s → at_boundary (drop n s) ≡ true
unfolding at_boundary is_cont
ascii_boundary zero [] h = refl
ascii_boundary zero (b ∷ s) (p, h) = ground arith
ascii_boundary (suc n) [] h = refl
ascii_boundary (suc n) (b ∷ s) (p, h) = ascii_boundary n s h

append_injective : (a b s t : Str) → length a ≡ length b → a ++ s ≡ b ++ t → (a ≡ b) × (s ≡ t)
append_injective [] [] s t n e = (refl, e)
append_injective [] (y ∷ b) s t n e = absurd (omega arith)
append_injective (x ∷ a) [] s t n e = absurd (omega arith)
append_injective (x ∷ a) (y ∷ b) s t n e = ground (arith, append_injective a b s t)

length-le_bytes : (w n : ℕ) → length (le_bytes w n) ≡ w
unfolding le_bytes
length-le_bytes zero n = refl
length-le_bytes (suc w) n = omega (arith, length-le_bytes w (n / 256))

pow_step : (w : ℕ) → 256 ^ suc w ≡ 256 * 256 ^ w
pow_step w = pow-suc 256 w ∙ mul_comm (256 ^ w) 256

le_bytes-injective : (w n m : ℕ) → n < 256 ^ w → m < 256 ^ w → le_bytes w n ≡ le_bytes w m → n ≡ m
unfolding le_bytes
le_bytes-injective zero n m hn hm e = omega arith
le_bytes-injective (suc w) n m hn hm e =
    let p = pow_step w in
    ground (arith, le_bytes-injective w (n / 256) (m / 256) (omega arith) (omega arith))

frame-ne-nil : (a s : Str) → frame a ++ s ≢ []
unfolding frame le_bytes
frame-ne-nil a s = cc

frame-injective :
    (a b s t : Str)
    → length a < 2 ^ 64
    → length b < 2 ^ 64
    → frame a ++ s ≡ frame b ++ t
    → (a ≡ b) × (s ≡ t)
unfolding frame
frame-injective a b s t ha hb e =
    let x = le_bytes 8 (length a % 2 ^ 64) in
    let y = le_bytes 8 (length b % 2 ^ 64) in
    let e' : x ++ (a ++ s) ≡ y ++ (b ++ t) = sym (append_assoc x a s) ∙ e ∙ append_assoc y b t in
    let widths : length x ≡ length y = length-le_bytes 8 _ ∙ sym (length-le_bytes 8 _) in
    let (sizes, rest) = append_injective x y (a ++ s) (b ++ t) widths e' in
    let n : length a % 2 ^ 64 ≡ length b % 2 ^ 64 =
      le_bytes-injective 8 _ _ (omega arith) (omega arith) sizes in
    append_injective a b s t (omega arith) rest

-- An item that `len() as u64` measures exactly.
abbrev pub IsItem : Str → Type 0
IsItem item = length item < 2 ^ 64

-- The separator is unambiguous: what is hashed determines the sequence of items.
frames-injective :
    (xs ys : List Str) → All IsItem xs → All IsItem ys → frames xs ≡ frames ys → xs ≡ ys
unfolding frames
frames-injective [] [] hx hy e = refl
frames-injective [] (y ∷ ys) hx hy e = absurd (frame-ne-nil y (frames ys) (sym e))
frames-injective (x ∷ xs) [] hx hy e = absurd (frame-ne-nil x (frames xs) e)
frames-injective (x ∷ xs) (y ∷ ys) (hx, hxs) (hy, hys) e =
    let (heads, rest) = frame-injective x y (frames xs) (frames ys) hx hy e in
    let tails = frames-injective xs ys hxs hys rest in cc

-- Two sequences of items with one hash are equal, or their framed texts are two different texts
-- with one digest. Every item's length fits in 64 bits.
pub sha256_hex_items-eq :
    (digest : Str → Str) (xs ys : List Str)
    → All IsItem xs
    → All IsItem ys
    → sha256_hex_items digest xs ≡ sha256_hex_items digest ys
    → (xs ≡ ys) ⊎ ((frames xs ≢ frames ys) × (digest (frames xs) ≡ digest (frames ys)))
unfolding sha256_hex_items
sha256_hex_items-eq digest xs ys hx hy e = elim (Bool-cases (str_eq (frames xs) (frames ys))) [
  | inl same ↦ inl (frames-injective xs ys hx hy (eq_of_str_eq _ _ same))
  | inr other ↦ inr ((λ p. cc (str_eq_refl (frames ys), ap (λ s. str_eq s (frames ys)) p)), e)
]

-- The short form of an ASCII hash is its first sixteen characters, or all of a shorter one.
pub short_of_IsAscii : (h : Str) → IsAscii h → short h ≡ done (take 16 h)
unfolding short
short_of_IsAscii h a = rw (ascii_boundary 16 h a)
