-- ===== src/DrvFile/Print.antt =====
-- The text of a term as Nix writes it, the specification of the parser.
use nix2rdf.Base.{ℕ, ◌+◌, [], ◌∷◌, ◌++◌, Str, ◌==◌, if◌then◌else◌}
use nix2rdf.DrvFile.Parser.{Term, Terms, str, list, tuple, nil, cons}

-- Quotes, backslashes and the three control characters are escaped.
unfoldable pub escape : ℕ → Str
escape c =
    if c == b'"'
    then b'\\' ∷ b'"' ∷ []
    else if c == b'\\'
    then b'\\' ∷ b'\\' ∷ []
    else if c == b'\n'
    then b'\\' ∷ b'n' ∷ []
    else if c == b'\r'
    then b'\\' ∷ b'r' ∷ []
    else if c == b'\t'
    then b'\\' ∷ b't' ∷ []
    else c ∷ []

unfoldable pub print_body : Str → Str
print_body [] = b'"' ∷ []
print_body (c ∷ s) = escape c ++ print_body s

unfoldable mutual
  pub print : Term → Str
  print (str s) = b'"' ∷ print_body s
  print (list ts) = b'[' ∷ print_seq b']' ts
  print (tuple ts) = b'(' ∷ print_seq b')' ts

  pub print_seq : ℕ → Terms → Str
  print_seq close nil = close ∷ []
  print_seq close (cons t ts) = print t ++ print_more close ts

  pub print_more : ℕ → Terms → Str
  print_more close nil = close ∷ []
  print_more close (cons t ts) = b',' ∷ (print t ++ print_more close ts)

-- The fuel that reading a term back takes.
unfoldable mutual
  pub cost : Term → ℕ
  cost (str s) = 1
  cost (list ts) = 1 + cost_seq ts
  cost (tuple ts) = 1 + cost_seq ts

  pub cost_seq : Terms → ℕ
  cost_seq nil = 1
  cost_seq (cons t ts) = 3 + (cost t + cost_seq ts)
