-- ===== src/DrvFile/RoundTrip.antt =====
-- Reading back what was printed.
use nix2rdf.Base.{
  Bool-cases, inr, inl, ◌⊎◌, ℕ, zero, suc, ◌≤◌, ◌≡◌, ◌≢◌, refl, true, [], ◌∷◌, ◌++◌, arith, Str,
  ◌==◌, append_assoc,
}
use nix2rdf.Base.Utf8.{is_utf8}
use nix2rdf.DrvFile.Parser.{
  ◌>>=◌, Term, Terms, str, list, tuple, nil, cons, ok, unescape, string_body, string, term, seq,
  items, next,
}
use nix2rdf.DrvFile.Print.{escape, print_body, print, print_seq, print_more, cost, cost_seq}

-- Every text in the term is UTF-8.
abbrev mutual
  pub IsUtf8 : Term → Type 0
  IsUtf8 (str s) = is_utf8 s ≡ true
  IsUtf8 (list ts) = AreUtf8 ts
  IsUtf8 (tuple ts) = AreUtf8 ts

  pub AreUtf8 : Terms → Type 0
  AreUtf8 nil = Unit
  AreUtf8 (cons t ts) = IsUtf8 t × AreUtf8 ts

escape_cases :
    (c : ℕ)
    → ((d : ℕ) × (escape c ≡ b'\\' ∷ d ∷ []) × (unescape d ≡ c))
      ⊎ ((escape c ≡ c ∷ []) × (c ≢ b'"') × (c ≢ b'\\'))
unfolding escape unescape
escape_cases c = elim (Bool-cases (c == b'"')) [
  | inl e ↦ inl (b'"', ground arith, ground arith)
  | inr n1 ↦ elim (Bool-cases (c == b'\\')) [
    | inl e ↦ inl (b'\\', ground arith, ground arith)
    | inr n2 ↦ elim (Bool-cases (c == b'\n')) [
      | inl e ↦ inl (b'n', ground arith, ground arith)
      | inr n3 ↦ elim (Bool-cases (c == b'\r')) [
        | inl e ↦ inl (b'r', ground arith, ground arith)
        | inr n4 ↦ elim (Bool-cases (c == b'\t')) [
          | inl e ↦ inl (b't', ground arith, ground arith)
          | inr n5 ↦ inr (ground arith, ground arith, ground arith)
        ]
      ]
    ]
  ]
]

string_body_escaped :
    (d : ℕ) (s : Str)
    → string_body (b'\\' ∷ d ∷ s) ≡ (string_body s >>= λ (out, rest). ok (unescape d ∷ out, rest))
unfolding string_body
string_body_escaped d s = refl

string_body_plain :
    (c : ℕ) (s : Str)
    → c ≢ b'"'
    → c ≢ b'\\'
    → string_body (c ∷ s) ≡ (string_body s >>= λ (out, rest). ok (c ∷ out, rest))
unfolding string_body
string_body_plain c [] h k = ground arith
string_body_plain c (d ∷ s) h k = ground arith

string_body_quote : (s : Str) → string_body (b'"' ∷ s) ≡ ok ([], s)
unfolding string_body
string_body_quote [] = refl
string_body_quote (d ∷ s) = refl

string_body-print_body : (s rest : Str) → string_body (print_body s ++ rest) ≡ ok (s, rest)
unfolding print_body
string_body-print_body [] rest = string_body_quote rest
string_body-print_body (c ∷ s) rest = elim (escape_cases c) [
  | inl (d, e, u) ↦
      rw (e, string_body_escaped d (print_body s ++ rest), string_body-print_body s rest, u)
  | inr (e, h, k) ↦
      rw (e, string_body_plain c (print_body s ++ rest) h k, string_body-print_body s rest)
]

string-print : (s rest : Str) → is_utf8 s ≡ true → string (print (str s) ++ rest) ≡ ok (s, rest)
unfolding string print
string-print s rest u = rw (string_body-print_body s rest, u)

cost_pos : (t : Term) → ¬ (cost t ≤ 0)
unfolding cost
cost_pos (str s) h = omega arith
cost_pos (list ts) h = omega arith
cost_pos (tuple ts) h = omega arith

print_head :
    (t : Term) (close : ℕ)
    → (close ≡ b']') ⊎ (close ≡ b')')
    → (c : ℕ) × (s : Str) × (print t ≡ c ∷ s) × (c ≢ close)
unfolding print
print_head (str s) close h = (b'"', print_body s, refl, ground arith)
print_head (list ts) close h = (b'[', print_seq b']' ts, refl, ground arith)
print_head (tuple ts) close h = (b'(', print_seq b')' ts, refl, ground arith)

seq_open : (f close c : ℕ) (s : Str) → c ≢ close → seq (suc f) close (c ∷ s) ≡ items f close (c ∷ s)
unfolding term
seq_open f close c s h = ground arith

seq-print_open :
    (f close : ℕ) (t : Term) (rest : Str)
    → (close ≡ b']') ⊎ (close ≡ b')')
    → seq (suc f) close (print t ++ rest) ≡ items f close (print t ++ rest)
seq-print_open f close t rest k =
    let (c, s, e, ne) = print_head t close k in rw e (seq_open f close c (s ++ rest) ne)

next_close :
    (f close : ℕ) (t : Term) (rest : Str)
    → close ≢ b','
    → next (suc f) close t (close ∷ rest) ≡ ok (cons t nil, rest)
unfolding term
next_close f close t rest h = ground arith

mutual
  unfolding print cost term

  pub term-print :
      (t : Term) (f : ℕ) (rest : Str)
      → cost t ≤ f
      → IsUtf8 t
      → term f (print t ++ rest) ≡ ok (t, rest)
  term-print t zero rest h u = absurd (cost_pos t h)
  term-print (str s) (suc f) rest h u = rw (string-print s rest u)
  term-print (list ts) (suc f) rest h u =
      rw (seq-print_seq ts f b']' rest (inl refl) (omega arith) u)
  term-print (tuple ts) (suc f) rest h u =
      rw (seq-print_seq ts f b')' rest (inr refl) (omega arith) u)

  seq-print_seq :
      (ts : Terms) (f close : ℕ) (rest : Str)
      → (close ≡ b']') ⊎ (close ≡ b')')
      → cost_seq ts ≤ f
      → AreUtf8 ts
      → seq f close (print_seq close ts ++ rest) ≡ ok (ts, rest)
  seq-print_seq nil zero close rest k h u = absurd (omega arith)
  seq-print_seq nil (suc f) close rest k h u = ground arith
  seq-print_seq (cons t ts) zero close rest k h u = absurd (omega arith)
  seq-print_seq (cons t ts) (suc zero) close rest k h u = absurd (omega arith)
  seq-print_seq (cons t ts) (suc (suc f)) close rest k h (ut, u) = rw (
    append_assoc (print t) (print_more close ts) rest,
    seq-print_open (suc f) close t (print_more close ts ++ rest) k,
    term-print t f (print_more close ts ++ rest) (omega arith) ut,
    next-print_more ts f close t rest k (omega arith) u,
  )

  next-print_more :
      (ts : Terms) (f close : ℕ) (t : Term) (rest : Str)
      → (close ≡ b']') ⊎ (close ≡ b')')
      → cost_seq ts ≤ f
      → AreUtf8 ts
      → next f close t (print_more close ts ++ rest) ≡ ok (cons t ts, rest)
  next-print_more nil zero close t rest k h u = absurd (omega arith)
  next-print_more nil (suc f) close t rest k h u = next_close f close t rest (ground arith)
  next-print_more (cons v ts) zero close t rest k h u = absurd (omega arith)
  next-print_more (cons v ts) (suc zero) close t rest k h u = absurd (omega arith)
  next-print_more (cons v ts) (suc (suc f)) close t rest k h (uv, u) = rw (
    append_assoc (print v) (print_more close ts) rest,
    term-print v f (print_more close ts ++ rest) (omega arith) uv,
    next-print_more ts f close v rest k (omega arith) u,
  )
