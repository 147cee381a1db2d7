-- ===== src/DrvFile/Parser.antt =====
-- `Parser` of crates/nix2rdf-core/src/nix/drv_file.rs: a recursive descent over the text from
-- position `i` on. The errors are named for their messages.
use nix2rdf.Base.{ℕ, zero, suc, [], ◌∷◌, Str, ◌==◌, if◌then◌else◌}
use nix2rdf.Base.Utf8.{is_utf8}

pub data ParseError : Type 0 where
  expected_byte : ℕ → ParseError
  unterminated bad_escape not_utf8 unexpected bad_sequence : ParseError
  expected_string expected_list not_derive malformed not_a_store_path : ParseError
  field_count : ℕ → ParseError

-- `panicked` is an index out of bounds; `out_of_fuel` has no counterpart in the program.
pub data Result {ℓ} (A : Type ℓ) : Type ℓ where
  ok : A → Result A
  err : ParseError → Result A
  panicked out_of_fuel : Result A

infixl 5 ◌>>=◌
abbrev pub ◌>>=◌ {ℓ κ} : {A : Type ℓ} {B : Type κ} → Result A → (A → Result B) → Result B
ok a >>= f = f a
err e >>= f = err e
panicked >>= f = panicked
out_of_fuel >>= f = out_of_fuel

mutual
  pub data Term : Type 0 where
    str : Str → Term
    list tuple : Terms → Term

  pub data Terms : Type 0 where
    nil : Terms
    cons : Term → Terms → Terms

-- What an escape stands for.
unfoldable pub unescape : ℕ → ℕ
unescape c =
    if c == b'n' then b'\n' else if c == b'r' then b'\r' else if c == b't' then b'\t' else c

-- The loop of `string`, behind the opening quote: the bytes up to the closing one, and the rest.
unfoldable pub string_body : Str → Result (Str × Str)
string_body [] = err unterminated
string_body (c ∷ []) =
    if c == b'"' then ok ([], []) else if c == b'\\' then err bad_escape else err unterminated
string_body (c ∷ d ∷ s) =
    let escaped = string_body s >>= λ (out, rest). ok (unescape d ∷ out, rest) in
    let plain = string_body (d ∷ s) >>= λ (out, rest). ok (c ∷ out, rest) in
    if c == b'"' then ok ([], d ∷ s) else if c == b'\\' then escaped else plain

unfoldable pub expect : ℕ → Str → Result Str
expect b [] = err (expected_byte b)
expect b (c ∷ s) = if c == b then ok s else err (expected_byte b)

unfoldable pub string : Str → Result (Str × Str)
unfolding expect
string s = do
  behind ← expect b'"' s
  (out, rest) ← string_body behind
  if is_utf8 out then ok (out, rest) else err not_utf8

abbrev as_str_term : Str × Str → Result (Term × Str)
as_str_term (s, rest) = ok (str s, rest)

-- `seq` takes the parser of its items: a call of `term` costs a unit of fuel, and so does an item.
-- `items` is its loop.
unfoldable mutual
  pub term : ℕ → Str → Result (Term × Str)
  term zero s = out_of_fuel
  term (suc f) [] = err unexpected
  term (suc f) (c ∷ s) =
      let as_list = seq f b']' s >>= λ (ts, rest). ok (list ts, rest) in
      let as_tuple = seq f b')' s >>= λ (ts, rest). ok (tuple ts, rest) in
      if c == b'"'
      then string (c ∷ s) >>= as_str_term
      else if c == b'['
      then as_list
      else if c == b'('
      then as_tuple
      else err unexpected

  pub seq : ℕ → ℕ → Str → Result (Terms × Str)
  seq zero close s = out_of_fuel
  seq (suc f) close [] = items f close []
  seq (suc f) close (c ∷ s) =
      let more = items f close (c ∷ s) in if c == close then ok (nil, s) else more

  pub items : ℕ → ℕ → Str → Result (Terms × Str)
  items zero close s = out_of_fuel
  items (suc f) close s = term f s >>= λ (t, rest). next f close t rest

  -- Behind an item: a comma and more items, or the end.
  pub next : ℕ → ℕ → Term → Str → Result (Terms × Str)
  next zero close t rest = out_of_fuel
  next (suc f) close t [] = err bad_sequence
  next (suc f) close t (c ∷ rest) =
      let more = items f close rest >>= λ (ts, r). ok (cons t ts, r) in
      if c == b',' then more else if c == close then ok (cons t nil, rest) else err bad_sequence
