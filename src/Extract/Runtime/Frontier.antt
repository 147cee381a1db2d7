-- ===== src/Extract/Runtime/Frontier.antt =====
-- What a round of the loop of `extract_runtime_closure` asks for next.
use nix2rdf.Base.{
  ◌≡◌, refl, ap, ◌∙◌, ◌⊎◌, inl, inr, true, ◌&&◌, not, Option, none, some, List, [], ◌∷◌, Str, arith,
  Bool-cases,
}
use nix2rdf.Base.Dedup
use nix2rdf.Base.Map
use nix2rdf.Base.Order.{str_ord}
use nix2rdf.Base.Set
use nix2rdf.Base.Set.{member, cmp_eq, eq_of_cmp_eq}
use nix2rdf.Base.Sort
use nix2rdf.Extract.Outputs.{Infos, known}
use nix2rdf.Extract.Runtime.{Seen, push_refs, take_infos, unseen, next_frontier}
use nix2rdf.Nix.Model.{PathInfo}
use nix2rdf.Extract.Runtime.Round.{known_later, push_refs-from, known-tail, known-head}

-- Who asks for a path.
abbrev pub Asks : Infos → Str → Type 0
Asks infos r =
    (p : Str) × (i : PathInfo) × (known p infos ≡ some i) × (member r i.references ≡ true)

Asks-cons :
    (p : Str) (o : Option PathInfo) (infos : Infos) (r : Str)
    → Map.IsSorted ((p, o) ∷ infos)
    → Asks infos r
    → Asks ((p, o) ∷ infos) r
Asks-cons p o infos r s (q, i, e, h) = elim (Bool-cases (cmp_eq q p)) [
  | inl same ↦ absurd (cc (known_later q p o infos s same))
  | inr other ↦ (q, i, known-tail q p o infos other ∙ e, h)
]

-- What is asked for next is referred to by something that was answered.
pub take_infos-from :
    (infos : Infos) (seen : Seen) (frontier : List Str) (r : Str)
    → Map.IsSorted infos
    → member r (take_infos infos seen frontier).1 ≡ true
    → (member r frontier ≡ true) ⊎ Asks infos r
unfolding take_infos
take_infos-from [] seen frontier r s h = inl h
take_infos-from ((p, none) ∷ infos) seen frontier r (lt, s) h =
    elim (take_infos-from infos seen frontier r s h) [
      | inl old ↦ inl old
      | inr asks ↦ inr (Asks-cons p none infos r (lt, s) asks)
    ]
take_infos-from ((p, some i) ∷ infos) seen frontier r (lt, s) h =
    elim (take_infos-from infos (Map.insert p i seen) (push_refs seen p i.references frontier) r s
      h) [
        | inl pushed ↦ elim (Bool-cases (member r i.references)) [
          | inl mine ↦ inr (p, i, known-head p p (some i) infos (Set.cmp_eq_self p), mine)
          | inr not_mine ↦
              inl (ground (arith, push_refs-from seen p i.references frontier r pushed))
        ]
        | inr asks ↦ inr (Asks-cons p (some i) infos r (lt, s) asks)
      ]

member-unseen :
    (seen : Seen) (ps : List Str) (r : Str)
    → member r (unseen seen ps) ≡ (member r ps && not (Map.contains_key r seen))
unfolding unseen member
member-unseen seen [] r = refl
member-unseen seen (p ∷ ps) r = elim (Bool-cases (cmp_eq r p)) [
  | inl same ↦
      let at : r ≡ p = eq_of_cmp_eq r p same in
      let key : Map.contains_key r seen ≡ Map.contains_key p seen =
        ap (λ x. Map.contains_key x seen) at in
      ground (arith, member-unseen seen ps r)
  | inr other ↦ ground (arith, member-unseen seen ps r)
]

pub member-next_frontier :
    (seen : Seen) (frontier : List Str) (r : Str)
    → member r (next_frontier (seen, frontier))
      ≡ (member r frontier && not (Map.contains_key r seen))
unfolding next_frontier
member-next_frontier seen frontier r = ground (
  arith,
  member-unseen seen (Dedup.dedup (Sort.sort frontier)) r,
  ap (member r) (Dedup.dedup-sort frontier),
  Set.member-extend r frontier [],
  Set.member-nil r,
)

-- A round in which nothing is answered changes nothing.
pub take_infos-cases :
    (infos : Infos) (seen : Seen) (frontier : List Str)
    → Map.IsSorted infos
    → (take_infos infos seen frontier ≡ (seen, frontier))
      ⊎ ((p : Str) × (i : PathInfo) × (known p infos ≡ some i))
unfolding take_infos
take_infos-cases [] seen frontier s = inl refl
take_infos-cases ((p, none) ∷ infos) seen frontier (lt, s) =
    elim (take_infos-cases infos seen frontier s) [
      | inl same ↦ inl same
      | inr (q, i, e) ↦ inr (elim (Bool-cases (cmp_eq q p)) [
        | inl same ↦ absurd (cc (known_later q p none infos (lt, s) same))
        | inr other ↦ (q, i, known-tail q p none infos other ∙ e)
      ])
    ]
take_infos-cases ((p, some i) ∷ infos) seen frontier (lt, s) =
    inr (p, i, known-head p p (some i) infos (Set.cmp_eq_self p))
