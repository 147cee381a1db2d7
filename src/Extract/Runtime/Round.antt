-- ===== src/Extract/Runtime/Round.antt =====
-- One round of the loop of `extract_runtime_closure`: what is seen and what is asked for next.
use nix2rdf.Base.{
  ◌≡◌, refl, sym, ap, ◌∙◌, inl, inr, true, false, ◌||◌, ◌&&◌, not, Option, none, some, List, [],
  ◌∷◌, ◌++◌, Str, arith, str_eq, eq_of_str_eq, Bool-cases, if◌then◌else◌,
}
use nix2rdf.Base.Map
use nix2rdf.Base.Order.{str_ord}
use nix2rdf.Base.Set
use nix2rdf.Base.Set.{member, cmp_eq, eq_of_cmp_eq}
use nix2rdf.Extract.Graph.Sources.{member-append}
use nix2rdf.Extract.Outputs.{Infos, known}
use nix2rdf.Extract.Runtime.{Seen, push_refs, take_infos}
use nix2rdf.Nix.Model.{PathInfo}

pub known-cons :
    (q p : Str) (o : Option PathInfo) (infos : Infos)
    → known q ((p, o) ∷ infos) ≡ (if cmp_eq q p then o else known q infos)
unfolding known Map.get
known-cons q p none infos = ground arith
known-cons q p (some i) infos = ground arith

member_one : (r x : Str) → cmp_eq r x ≡ true → member r (x ∷ []) ≡ true
unfolding member
member_one r x h = ground arith

member_two : (r x : Str) → member r (x ∷ []) ≡ cmp_eq r x
unfolding member
member_two r x = ground arith

known-nil : (q : Str) → known q [] ≡ none
unfolding known Map.get
known-nil q = refl

known_of_get : (q : Str) (infos : Infos) → Map.get q infos ≡ none → known q infos ≡ none
unfolding known
known_of_get q infos e = ground arith

-- The key of the first entry stands in no later one.
pub known_later :
    (q p : Str) (o : Option PathInfo) (infos : Infos)
    → Map.IsSorted ((p, o) ∷ infos)
    → cmp_eq q p ≡ true
    → known q infos ≡ none
known_later q p o infos (lt, s) same =
    ap (λ x. known x infos) (eq_of_cmp_eq q p same)
    ∙ known_of_get p infos (Map.get_of_lt p infos lt)

abbrev pub or_seen : Option PathInfo → Option PathInfo → Option PathInfo
or_seen none old = old
or_seen (some i) old = some i

-- What was answered is seen, and nothing is forgotten.
pub take_infos-get :
    (infos : Infos) (seen : Seen) (frontier : List Str) (q : Str)
    → Map.IsSorted infos
    → Map.get q (take_infos infos seen frontier).0 ≡ or_seen (known q infos) (Map.get q seen)
unfolding take_infos
take_infos-get [] seen frontier q s = rw (known-nil q) refl
take_infos-get ((p, none) ∷ infos) seen frontier q (lt, s) = ground (
  arith,
  take_infos-get infos seen frontier q s,
  known-cons q p none infos,
  known_later q p none infos (lt, s),
)
take_infos-get ((p, some i) ∷ infos) seen frontier q (lt, s) = ground (
  arith,
  take_infos-get infos (Map.insert p i seen) (push_refs seen p i.references frontier) q s,
  known-cons q p (some i) infos,
  known_later q p (some i) infos (lt, s),
  Map.get-insert p q i seen,
)

push_refs-keeps :
    (seen : Seen) (p : Str) (refs frontier : List Str) (r : Str)
    → member r frontier ≡ true
    → member r (push_refs seen p refs frontier) ≡ true
unfolding push_refs
push_refs-keeps seen p [] frontier r h = h
push_refs-keeps seen p (x ∷ refs) frontier r h = ground (
  arith,
  push_refs-keeps seen p refs frontier r h,
  push_refs-keeps seen p refs (frontier ++ x ∷ []) r,
  member-append r frontier (x ∷ []),
)

push_refs-has :
    (seen : Seen) (p : Str) (refs frontier : List Str) (r : Str)
    → member r refs ≡ true
    → Map.contains_key r seen ≡ false
    → str_eq r p ≡ false
    → member r (push_refs seen p refs frontier) ≡ true
unfolding push_refs member
push_refs-has seen p [] frontier r h n d = absurd (cc h)
push_refs-has seen p (x ∷ refs) frontier r h n d = elim (Bool-cases (cmp_eq r x)) [
  | inl same ↦
      let at : r ≡ x = eq_of_cmp_eq r x same in
      let fresh : (not (Map.contains_key x seen) && not (str_eq x p)) ≡ true =
        ap (λ y. not (Map.contains_key y seen) && not (str_eq y p)) (sym at) ∙ ground arith in
      ground (
        arith,
        push_refs-keeps seen p refs (frontier ++ x ∷ []) r,
        member-append r frontier (x ∷ []),
        member_one r x same,
      )
  | inr other ↦ ground (
    arith,
    push_refs-has seen p refs frontier r,
    push_refs-has seen p refs (frontier ++ x ∷ []) r,
  )
]

pub push_refs-from :
    (seen : Seen) (p : Str) (refs frontier : List Str) (r : Str)
    → member r (push_refs seen p refs frontier) ≡ true
    → (member r frontier || member r refs) ≡ true
unfolding push_refs member
push_refs-from seen p [] frontier r h = ground arith
push_refs-from seen p (x ∷ refs) frontier r h = ground (
  arith,
  push_refs-from seen p refs frontier r,
  push_refs-from seen p refs (frontier ++ x ∷ []) r,
  member-append r frontier (x ∷ []),
  member_two r x,
)

take_infos-keeps :
    (infos : Infos) (seen : Seen) (frontier : List Str) (r : Str)
    → member r frontier ≡ true
    → member r (take_infos infos seen frontier).1 ≡ true
unfolding take_infos
take_infos-keeps [] seen frontier r h = h
take_infos-keeps ((p, none) ∷ infos) seen frontier r h = take_infos-keeps infos seen frontier r h
take_infos-keeps ((p, some i) ∷ infos) seen frontier r h =
    take_infos-keeps infos (Map.insert p i seen) _ r
      (push_refs-keeps seen p i.references frontier r h)

pub known-tail :
    (q p : Str) (o : Option PathInfo) (infos : Infos)
    → cmp_eq q p ≡ false
    → known q ((p, o) ∷ infos) ≡ known q infos
known-tail q p o infos n = ground (arith, known-cons q p o infos)

pub known-head :
    (q p : Str) (o : Option PathInfo) (infos : Infos)
    → cmp_eq q p ≡ true
    → known q ((p, o) ∷ infos) ≡ o
known-head q p o infos n = ground (arith, known-cons q p o infos)

same_path : (q p : Str) → str_eq q p ≡ true → cmp_eq q p ≡ true
same_path q p h = ap (λ x. cmp_eq q x) (sym (eq_of_str_eq q p h)) ∙ Set.cmp_eq_self q

-- A reference of what was answered is seen or asked for next.
pub take_infos-has :
    (infos : Infos) (seen : Seen) (frontier : List Str) (p r : Str) (i : PathInfo)
    → Map.IsSorted infos
    → known p infos ≡ some i
    → member r i.references ≡ true
    → (Map.contains_key r (take_infos infos seen frontier).0
        || member r (take_infos infos seen frontier).1)
      ≡ true
unfolding take_infos
take_infos-has [] seen frontier p r i s e h = absurd (cc (known-nil p))
take_infos-has ((q, none) ∷ infos) seen frontier p r i (lt, s) e h =
    elim (Bool-cases (cmp_eq p q)) [
      | inl same ↦ absurd (cc (known-head p q none infos same))
      | inr other ↦
          take_infos-has infos seen frontier p r i s (sym (known-tail p q none infos other) ∙ e) h
    ]
take_infos-has ((q, some j) ∷ infos) seen frontier p r i (lt, s) e h =
    let seen' = Map.insert q j seen in
    let frontier' = push_refs seen q j.references frontier in
    elim (Bool-cases (cmp_eq p q)) [
      | inl same ↦
          let is : j ≡ i = cc (known-head p q (some j) infos same) in
          let h' : member r j.references ≡ true = ap (λ x. member r x.references) is ∙ h in
          ground (
            arith,
            take_infos-get infos seen' frontier' r s,
            Map.get-insert q r j seen,
            take_infos-keeps infos seen' frontier' r,
            push_refs-has seen q j.references frontier r h',
            same_path r q,
          )
      | inr other ↦
          take_infos-has infos seen' frontier' p r i s
            (sym (known-tail p q (some j) infos other) ∙ e) h
    ]
