-- ===== src/DrvFile/Length.antt =====
-- The length of printed text against the cost of reading it, and its last byte.
use nix2rdf.Base.{
  ℕ, ◌+◌, ◌*◌, ◌≤◌, ◌≡◌, refl, [], ◌∷◌, ◌++◌, arith, Str, length, length-append, append_assoc,
}
use nix2rdf.DrvFile.Parser.{Term, Terms, str, list, tuple, nil, cons}
use nix2rdf.DrvFile.Print.{escape, print_body, print, print_seq, print_more, cost, cost_seq}

abbrev size : Str → ℕ
size = length

size-append : (s t : Str) → size (s ++ t) ≡ size s + size t
size-append = length-append

body_pos : (s : Str) → 1 ≤ size (print_body s)
unfolding print_body
body_pos [] = omega arith
body_pos (c ∷ s) = omega (arith, body_pos s, size-append (escape c) (print_body s))

mutual
  unfolding print cost

  cost-le : (t : Term) → cost t + 2 ≤ 3 * size (print t)
  cost-le (str s) = omega (arith, body_pos s)
  cost-le (list ts) = omega (arith, cost_seq-le ts b']')
  cost-le (tuple ts) = omega (arith, cost_seq-le ts b')')

  cost_seq-le : (ts : Terms) (close : ℕ) → cost_seq ts ≤ 3 * size (print_seq close ts)
  cost_seq-le nil close = omega arith
  cost_seq-le (cons t ts) close =
      omega (arith, cost-le t, cost_more-le ts close, size-append (print t) (print_more close ts))

  cost_more-le : (ts : Terms) (close : ℕ) → cost_seq ts + 1 ≤ 3 * size (print_more close ts)
  cost_more-le nil close = omega arith
  cost_more-le (cons t ts) close =
      omega (arith, cost-le t, cost_more-le ts close, size-append (print t) (print_more close ts))

-- The fuel of `parse_drv` covers the cost of reading back what was printed.
pub cost-print : (t : Term) → cost t ≤ 3 * length (print t) + 1
cost-print t = omega (arith, cost-le t)

print_more_end : (close : ℕ) (ts : Terms) → (s : Str) × (print_more close ts ≡ s ++ close ∷ [])
unfolding print
print_more_end close nil = ([], refl)
print_more_end close (cons t ts) =
    let (s, e) = print_more_end close ts in
    (b',' ∷ (print t ++ s), rw (e, append_assoc (print t) s (close ∷ [])))

-- The printed sequence ends in the closing byte.
pub print_seq_end : (close : ℕ) (ts : Terms) → (s : Str) × (print_seq close ts ≡ s ++ close ∷ [])
unfolding print
print_seq_end close nil = ([], refl)
print_seq_end close (cons t ts) =
    let (s, e) = print_more_end close ts in
    (print t ++ s, rw (e, append_assoc (print t) s (close ∷ [])))
