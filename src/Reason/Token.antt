-- ===== src/Reason/Token.antt =====
-- `read_input` finds the graph of a fragment in its first line.
use nix2rdf.Base.{
  Bool-cases, inl, inr, ℕ, ◌≡◌, refl, sym, ap, ◌∙◌, false, some, List, [], ◌∷◌, ◌++◌, append_assoc,
  append-nil, Str, codes, ◌==◌, arith, All, All-append, Lacks,
}
use mathlib.Core.Path.{subst}
use mathlib.Core.List.{reverse, reverse-append, reverse-reverse}
use nix2rdf.Base.Split.{lines, lines_after, pieces, pieces_after, drop_while, trim_matches}
use nix2rdf.Fragment.Kind.{graph}
use nix2rdf.Fragment.Lines.{Fragment, nquads_lines, show_iri, to_nquads}
use nix2rdf.Iri.Base64.{Base64}
use nix2rdf.Reason.Inputs.{first, graph_token, is_angle, second_last}

reverse_cons : (b : ℕ) (part y : Str) → reverse (b ∷ part) ++ y ≡ reverse part ++ (b ∷ y)
reverse_cons b part y =
    ap (λ s. s ++ y) (reverse-append (b ∷ []) part) ∙ append_assoc (reverse part) (b ∷ []) y

-- A line that ends in a dot is read whole.
first-lines_after :
    (part x rest : Str)
    → Lacks b'\n' x
    → first (lines_after part (x ++ (b'.' ∷ b'\n' ∷ rest)))
      ≡ some (reverse part ++ (x ++ b'.' ∷ []))
unfolding lines_after first
first-lines_after part [] rest h = ap some (reverse-append (b'.' ∷ []) part)
first-lines_after part (b ∷ x) rest (n, h) =
    ground (arith, first-lines_after (b ∷ part) x rest h, reverse_cons b part (x ++ b'.' ∷ []))

pieces_after-Lacks :
    (c : ℕ) (part g y : Str)
    → Lacks c g
    → pieces_after c part (g ++ c ∷ y) ≡ (reverse part ++ g) ∷ pieces_after c [] y
unfolding pieces_after
pieces_after-Lacks c part [] y h = ground (arith, append-nil (reverse part))
pieces_after-Lacks c part (b ∷ g) y (n, h) =
    ground (arith, pieces_after-Lacks c (b ∷ part) g y h, reverse_cons b part g)

second_last_cons :
    (a : Str) (l : List Str) (g : Str) → second_last l ≡ some g → second_last (a ∷ l) ≡ some g
unfolding second_last
second_last_cons a [] g h = cc
second_last_cons a (x ∷ []) g h = cc
second_last_cons a (x ∷ y ∷ l) g h = h

second_last-pieces_after :
    (part x g : Str)
    → Lacks b' ' g
    → second_last (pieces_after b' ' part (x ++ (b' ' ∷ (g ++ codes " .")))) ≡ some g
unfolding pieces_after second_last
second_last-pieces_after part [] g h =
    ap (λ l. second_last (reverse part ∷ l)) (pieces_after-Lacks b' ' [] g (b'.' ∷ []) h)
second_last-pieces_after part (b ∷ x) g h = elim (Bool-cases (b == b' ')) [
  | inl same ↦ ground (
    arith,
    second_last_cons (reverse part) (pieces_after b' ' [] (x ++ (b' ' ∷ (g ++ codes " .")))) g
        (second_last-pieces_after [] x g h),
  )
  | inr other ↦ ground (arith, second_last-pieces_after (b ∷ part) x g h)
]

-- No angle bracket.
abbrev pub IsInner : Str → Type 0
IsInner = All (λ b. is_angle b ≡ false)

drop_while-IsInner : (s : Str) → IsInner s → drop_while is_angle s ≡ s
unfolding drop_while
drop_while-IsInner [] h = refl
drop_while-IsInner (b ∷ s) (p, h) = ground arith

reverse-IsInner : (s : Str) → IsInner s → IsInner (reverse s)
reverse-IsInner [] h = tt
reverse-IsInner (b ∷ s) (p, h) =
    subst IsInner (sym (reverse-append (b ∷ []) s))
      (All-append _ (reverse s) (b ∷ []) (reverse-IsInner s h) (p, tt))

drop_open : (s : Str) → drop_while is_angle (b'<' ∷ s) ≡ drop_while is_angle s
unfolding drop_while is_angle
drop_open s = refl

drop_close : (s : Str) → drop_while is_angle (b'>' ∷ s) ≡ drop_while is_angle s
unfolding drop_while is_angle
drop_close s = refl

drop_inner : (b : ℕ) (s : Str) → is_angle b ≡ false → drop_while is_angle (b ∷ s) ≡ b ∷ s
unfolding drop_while
drop_inner b s h = ground arith

trim_matches-show_iri : (g : Str) → IsInner g → trim_matches is_angle (show_iri g) ≡ g
unfolding trim_matches show_iri
trim_matches-show_iri [] h =
    ap (λ s. reverse (drop_while is_angle (reverse s)))
      (drop_open (b'>' ∷ []) ∙ drop_close [] ∙ drop_while-IsInner [] tt)
    ∙ ap reverse (drop_while-IsInner [] tt)
trim_matches-show_iri (b ∷ g) (p, h) =
    let s = b ∷ g in
    ap (λ x. reverse (drop_while is_angle (reverse x)))
      (drop_open (s ++ b'>' ∷ []) ∙ drop_inner b (g ++ b'>' ∷ []) p)
    ∙ ap (λ x. reverse (drop_while is_angle x)) (reverse-append s (b'>' ∷ []))
    ∙ ap reverse
        (drop_close (reverse s) ∙ drop_while-IsInner (reverse s) (reverse-IsInner s (p, h)))
    ∙ reverse-reverse s

token_line :
    (g l rest : Str)
    → l ++ (b' ' ∷ (g ++ (codes " ." ++ (b'\n' ∷ rest))))
      ≡ (l ++ (b' ' ∷ (g ++ b' ' ∷ []))) ++ (b'.' ∷ b'\n' ∷ rest)
token_line g l rest = sym (
    append_assoc l (b' ' ∷ (g ++ b' ' ∷ [])) (b'.' ∷ b'\n' ∷ rest)
    ∙ ap (λ s. l ++ (b' ' ∷ s)) (append_assoc g (b' ' ∷ []) (b'.' ∷ b'\n' ∷ rest)))

token_end :
    (g l : Str) → (l ++ (b' ' ∷ (g ++ b' ' ∷ []))) ++ b'.' ∷ [] ≡ l ++ (b' ' ∷ (g ++ codes " ."))
token_end g l =
    append_assoc l (b' ' ∷ (g ++ b' ' ∷ [])) (b'.' ∷ [])
    ∙ ap (λ s. l ++ (b' ' ∷ s)) (append_assoc g (b' ' ∷ []) (b'.' ∷ []))

graph_token_of :
    (nquads l g : Str)
    → first (lines nquads) ≡ some l
    → second_last (pieces b' ' l) ≡ some g
    → graph_token nquads ≡ some (trim_matches is_angle g)
unfolding graph_token
graph_token_of nquads l g h k = ground arith

-- The graph that is read from the text of a fragment with a line is the fragment's graph. The line
-- has no line break, and the graph no line break, blank or angle bracket.
pub graph_token-to_nquads :
    (c : Base64) (f : Fragment) (l : Str) (ls : List Str)
    → f.lines ≡ l ∷ ls
    → Lacks b'\n' l
    → Lacks b'\n' (graph c f.kind)
    → Lacks b' ' (graph c f.kind)
    → IsInner (graph c f.kind)
    → graph_token (to_nquads c f) ≡ some (graph c f.kind)
unfolding to_nquads nquads_lines lines pieces show_iri
graph_token-to_nquads c f l ls e hl hg hb hi =
    let g = show_iri (graph c f.kind) in
    let rest = nquads_lines g ls in
    let x = l ++ (b' ' ∷ (g ++ b' ' ∷ [])) in
    let text : to_nquads c f ≡ x ++ (b'.' ∷ b'\n' ∷ rest) =
      ap (nquads_lines g) e ∙ token_line g l rest in
    let clean : Lacks b'\n' g =
      All-append _ (b'<' ∷ graph c f.kind) (b'>' ∷ []) (omega arith, hg) (omega arith) in
    let unbroken : Lacks b'\n' x =
      All-append _ l (b' ' ∷ (g ++ b' ' ∷ [])) hl
        (omega arith, All-append _ g (b' ' ∷ []) clean (omega arith)) in
    let solid : Lacks b' ' g =
      All-append _ (b'<' ∷ graph c f.kind) (b'>' ∷ []) (omega arith, hb) (omega arith) in
    let line : first (lines (to_nquads c f)) ≡ some (l ++ (b' ' ∷ (g ++ codes " ."))) =
      ap (λ s. first (lines s)) text
      ∙ first-lines_after [] x rest unbroken
      ∙ ap some (token_end g l) in
    graph_token_of (to_nquads c f) _ g line (second_last-pieces_after [] l g solid)
    ∙ ap some (trim_matches-show_iri (graph c f.kind) hi)
