-- ===== src/Extract/Runtime/Reach.antt =====
-- The loop of `extract_runtime_closure` in extract/drv.rs, and the paths that the roots lead to.
use mathlib.Core.Path.{subst}
use nix2rdf.Base.{
  ℕ, zero, suc, ◌≡◌, ◌↔◌, refl, sym, ap, ◌∙◌, inl, inr, true, false, ◌||◌, Option, none, some, List,
  [], ◌∷◌, Str, arith, Option-cases, Bool-cases,
}
use nix2rdf.Base.Map
use nix2rdf.Base.Order.{str_ord}
use nix2rdf.Base.Result.{Result, ok, err, ◌>>=◌, bind_ok}
use nix2rdf.Base.Set
use nix2rdf.Base.Set.{member}
use nix2rdf.Extract.Graph.Linked.{some_of_contains}
use nix2rdf.Extract.Outputs.{Infos, known}
use nix2rdf.Extract.Runtime.{Error, lift, Seen, take_infos, next_frontier, walk}
use nix2rdf.Extract.Runtime.Frontier.{take_infos-from, member-next_frontier}
use nix2rdf.Extract.Runtime.Round.{or_seen, take_infos-get, take_infos-has}
use nix2rdf.Nix.Model.{PathInfo}
use nix2rdf.Nix.Source.{NixSource}

-- What `nix path-info` documents: it answers for each path that is asked for, and for no other,
-- with what the store knows of it.
pub record IsPathInfo (nix : NixSource) (store : Str → Option PathInfo) : Type 0 where
  pub answers :
      (ps : List Str) (infos : Infos) (p : Str)
      → nix.path_info ps ≡ ok infos
      → member p ps ≡ true
      → known p infos ≡ store p
  pub asked :
      (ps : List Str) (infos : Infos) (p : Str)
      → nix.path_info ps ≡ ok infos
      → member p ps ≡ false
      → known p infos ≡ none
  pub sorted : (ps : List Str) (infos : Infos) → nix.path_info ps ≡ ok infos → Map.IsSorted infos

module _ (store : Str → Option PathInfo) (roots : List Str) where
  -- The paths that the roots lead to.
  pub data Reach : Str → Type 0 where
    root : {p : Str} → member p roots ≡ true → Reach p
    step :
        {p r : Str} {i : PathInfo}
        → Reach p
        → store p ≡ some i
        → member r i.references ≡ true
        → Reach r

  -- A path is seen, or will be asked for.
  abbrev Pending : List Str → Seen → Str → Type 0
  Pending frontier seen p = (Map.contains_key p seen || member p frontier) ≡ true

  pub record Inv (frontier : List Str) (seen : Seen) : Type 0 where
    pub sound : (p : Str) (i : PathInfo) → Map.get p seen ≡ some i → (store p ≡ some i) × Reach p
    pub wanted : (p : Str) → member p frontier ≡ true → Reach p
    pub rooted :
        (p : Str) (i : PathInfo)
        → member p roots ≡ true
        → store p ≡ some i
        → Pending frontier seen p
    pub closed :
        (p r : Str) (i j : PathInfo)
        → Map.get p seen ≡ some i
        → member r i.references ≡ true
        → store r ≡ some j
        → Pending frontier seen r

  pub Inv-start : Inv roots []
  unfolding Map.get
  Inv-start = record {
    sound = λ p i e. absurd (cc e);
    wanted = λ p m. root m;
    rooted = λ p i m e. ground arith;
    closed = λ p r i j e. absurd (cc e);
  }

  module _ (nix : NixSource) (path_info : IsPathInfo nix store) where
    abbrev round : Infos → Seen → Seen × List Str
    round infos seen = take_infos infos seen []

    get-round :
        (frontier : List Str) (infos : Infos) (seen : Seen) (p : Str)
        → nix.path_info frontier ≡ ok infos
        → Map.get p (round infos seen).0 ≡ or_seen (known p infos) (Map.get p seen)
    get-round frontier infos seen p e =
        take_infos-get infos seen [] p (path_info.sorted frontier infos e)

    -- What was seen, or asked for and in the store, is seen.
    Pending-round :
        (frontier : List Str) (infos : Infos) (seen : Seen) (p : Str) (i : PathInfo)
        → nix.path_info frontier ≡ ok infos
        → store p ≡ some i
        → Pending frontier seen p
        → Map.contains_key p (round infos seen).0 ≡ true
    Pending-round frontier infos seen p i e at h = elim (Bool-cases (member p frontier)) [
      | inl asked ↦
          let found : known p infos ≡ some i = path_info.answers frontier infos p e asked ∙ at in
          ground (arith, get-round frontier infos seen p e)
      | inr not_asked ↦ ground (arith, get-round frontier infos seen p e)
    ]

    known-store :
        (frontier : List Str) (infos : Infos) (p : Str) (i : PathInfo)
        → nix.path_info frontier ≡ ok infos
        → known p infos ≡ some i
        → (store p ≡ some i) × (member p frontier ≡ true)
    known-store frontier infos p i e h = elim (Bool-cases (member p frontier)) [
      | inl asked ↦ (sym (path_info.answers frontier infos p e asked) ∙ h, asked)
      | inr not_asked ↦ absurd (cc (path_info.asked frontier infos p e not_asked))
    ]

    asked_by :
        (frontier : List Str) (infos : Infos) (seen : Seen) (r : Str)
        → nix.path_info frontier ≡ ok infos
        → Inv frontier seen
        → member r (next_frontier (round infos seen)) ≡ true
        → Reach r
    asked_by frontier infos seen r e w m =
        let pushed : member r (round infos seen).1 ≡ true =
          ground (arith, member-next_frontier (round infos seen).0 (round infos seen).1 r) in
        elim (take_infos-from infos seen [] r (path_info.sorted frontier infos e) pushed) [
          | inl old ↦ absurd (cc (Set.member-nil r))
          | inr (p, i, new, refers) ↦
              let (at, asked) = known-store frontier infos p i e new in
              step (w.wanted p asked) at refers
        ]

    pub Inv-round :
        (frontier : List Str) (infos : Infos) (seen : Seen)
        → nix.path_info frontier ≡ ok infos
        → Inv frontier seen
        → Inv (next_frontier (round infos seen)) (round infos seen).0
    Inv-round frontier infos seen e w = record {
      sound = λ p i g. elim (Option-cases (known p infos)) [
        | inl old ↦
            w.sound p i (
              sym (get-round frontier infos seen p e ∙ ap (λ o. or_seen o (Map.get p seen)) old)
              ∙ g)
        | inr (j, new) ↦
            let (at, asked) = known-store frontier infos p j e new in
            let same : some j ≡ some i =
              sym (get-round frontier infos seen p e ∙ ap (λ o. or_seen o (Map.get p seen)) new)
              ∙ g in
            (at ∙ same, w.wanted p asked)
      ];
      wanted = λ r m. asked_by frontier infos seen r e w m;
      rooted = λ p i m at.
          ground (arith, Pending-round frontier infos seen p i e at (w.rooted p i m at));
      closed = λ p r i j g m at. elim (Option-cases (known p infos)) [
        | inl old ↦
            let before : Map.get p seen ≡ some i =
              sym (get-round frontier infos seen p e ∙ ap (λ o. or_seen o (Map.get p seen)) old)
              ∙ g in
            ground
              (arith, Pending-round frontier infos seen r j e at (w.closed p r i j before m at))
        | inr (i', new) ↦
            let same : some i' ≡ some i =
              sym (get-round frontier infos seen p e ∙ ap (λ o. or_seen o (Map.get p seen)) new)
              ∙ g in
            ground (
              arith,
              take_infos-has infos seen [] p r i (path_info.sorted frontier infos e) (new ∙ same) m,
              member-next_frontier (round infos seen).0 (round infos seen).1 r,
            )
      ];
    }

    ok_of_lift : {A : Type 0} (r : Result Error A) (a : A) → lift r ≡ ok a → r ≡ ok a
    unfolding lift
    ok_of_lift (ok b) a e = cc e
    ok_of_lift (err x) a e = absurd (cc e)

    get_of_seen :
        (out : Seen) (p : Str) (i : PathInfo)
        → Inv [] out
        → store p ≡ some i
        → Pending [] out p
        → Map.get p out ≡ some i
    get_of_seen out p i w at h =
        let (j, there) = some_of_contains p out (ground (arith, Set.member-nil p)) in
        let (is, reached) = w.sound p j there in there ∙ sym is ∙ at

    walk-step :
        (fuel : ℕ) (p : Str) (frontier : List Str) (seen : Seen)
        → walk nix (suc fuel) (p ∷ frontier) seen ≡ (
            lift (nix.path_info (p ∷ frontier)) >>= λ infos.
            walk nix fuel (next_frontier (round infos seen)) (round infos seen).0)
    unfolding walk
    walk-step fuel p frontier seen = refl

    walk-Inv :
        (fuel : ℕ) (frontier : List Str) (seen out : Seen)
        → Inv frontier seen
        → walk nix fuel frontier seen ≡ ok out
        → Inv [] out
    unfolding walk
    walk-Inv zero frontier seen out w e = absurd (cc e)
    walk-Inv (suc fuel) [] seen out w e = let same : seen ≡ out = cc e in subst (Inv []) same w
    walk-Inv (suc fuel) (p ∷ frontier) seen out w e =
        let (infos, at, rest) = bind_ok (lift (nix.path_info (p ∷ frontier))) _ out e in
        let is = ok_of_lift (nix.path_info (p ∷ frontier)) infos at in
        walk-Inv fuel (next_frontier (round infos seen)) (round infos seen).0 out
          (Inv-round (p ∷ frontier) infos seen is w) rest

    -- What is seen in the end is what the roots lead to and the store knows.
    Reach-seen :
        (out : Seen)
        → Inv [] out
        → {p : Str} → Reach p
        → (i : PathInfo) → store p ≡ some i
        → Map.get p out ≡ some i
    Reach-seen out w (root {p} m) i at = get_of_seen out p i w at (w.rooted p i m at)
    Reach-seen out w (step {p} {r} {i} h at_p refers) j at =
        get_of_seen out r j w at (w.closed p r i j (Reach-seen out w h i at_p) refers at)

-- What `walk` has seen when it succeeds is what the store knows of the paths that the roots lead
-- to: nothing else, and nothing less. Nix answers for each path that it is asked for, and for no
-- other, with what the store knows, in the order of the paths.
pub walk-Reach :
    (nix : NixSource) (store : Str → Option PathInfo) (roots : List Str)
    → IsPathInfo nix store
    → (fuel : ℕ) (seen : Seen) → walk nix fuel roots [] ≡ ok seen
    → (p : Str) (i : PathInfo)
    → (Map.get p seen ≡ some i) ↔ ((store p ≡ some i) × Reach store roots p)
walk-Reach nix store roots info fuel seen e p i =
    let w = walk-Inv store roots nix info fuel roots [] seen (Inv-start store roots) e in
    (w.sound p i, λ (at, reached). Reach-seen store roots nix info seen w reached i at)
