-- ===== src/Extract/Graph/Sources.antt =====
-- `source_hashes` of extract/drv.rs, and what Nix answers of the paths that it asks for.
use nix2rdf.Base.{
  ◌≡◌, refl, sym, ap, ◌∙◌, inl, inr, true, ◌||◌, Option, none, some, List, [], ◌∷◌, ◌++◌, Str,
  arith, All, Option-cases, Bool-cases, if◌then◌else◌, ◌>>=◌ as ◌>>=?◌,
}
use nix2rdf.Base.Map
use nix2rdf.Base.Order.{str_ord}
use nix2rdf.Base.Result.{ok, bind_ok}
use nix2rdf.Base.Set
use nix2rdf.Base.Set.{member, cmp_eq, eq_of_cmp_eq}
use nix2rdf.DrvFile.Closure.{Drvs}
use nix2rdf.Extract.Graph.{all_srcs, src_list, nar_of, split_known, none_missing, source_hashes}
use nix2rdf.Extract.Outputs.{Infos, known, ask}
use nix2rdf.Nix.Model.{DrvInfo, PathInfo}
use nix2rdf.Nix.Source.{NixSource}

-- What `nix path-info` documents: the answer for a path that was asked for is what the store knows
-- of it.
abbrev pub IsStore : NixSource → (Str → Option PathInfo) → Type 0
IsStore nix store =
    (ps : List Str) (infos : Infos) (p : Str)
    → nix.path_info ps ≡ ok infos
    → member p ps ≡ true
    → known p infos ≡ store p

abbrev pub nar_in : (Str → Option PathInfo) → Str → Option Str
nar_in store p = store p >>=? λ i. i.nar_hash

never_empty : {A : Type 0} (xs : List A) (x : A) → xs ++ x ∷ [] ≡ [] → ⊥
never_empty [] x e = cc e
never_empty (y ∷ xs) x e = cc e

split_none :
    (infos : Infos) (p : Str) (ps : List Str) (m : List (Str × Str)) (missing : List Str)
    → nar_of infos p ≡ none
    → split_known infos (p ∷ ps) m missing ≡ split_known infos ps m (missing ++ p ∷ [])
unfolding split_known
split_none infos p ps m missing e = ground arith

split_some :
    (infos : Infos) (p nar : Str) (ps : List Str) (m : List (Str × Str)) (missing : List Str)
    → nar_of infos p ≡ some nar
    → split_known infos (p ∷ ps) m missing ≡ split_known infos ps (Map.insert p nar m) missing
unfolding split_known
split_some infos p nar ps m missing e = ground arith

split_known-missing :
    (infos : Infos) (ps : List Str) (m : List (Str × Str)) (missing : List Str)
    → (split_known infos ps m missing).1 ≡ []
    → missing ≡ []
unfolding split_known
split_known-missing infos [] m missing e = e
split_known-missing infos (p ∷ ps) m missing e = elim (Option-cases (nar_of infos p)) [
  | inl none_known ↦
      let step = split_none infos p ps m missing none_known in
      absurd (
        never_empty missing p
          (split_known-missing infos ps m (missing ++ p ∷ []) (ap (λ st. st.1) (sym step) ∙ e)))
  | inr (nar, there) ↦
      let step = split_some infos p nar ps m missing there in
      split_known-missing infos ps (Map.insert p nar m) missing (ap (λ st. st.1) (sym step) ∙ e)
]

split_known-get :
    (infos : Infos) (ps : List Str) (m : List (Str × Str)) (missing : List Str) (q : Str)
    → (split_known infos ps m missing).1 ≡ []
    → Map.get q (split_known infos ps m missing).0
      ≡ (if member q ps then nar_of infos q else Map.get q m)
unfolding split_known member
split_known-get infos [] m missing q e = refl
split_known-get infos (p ∷ ps) m missing q e = elim (Option-cases (nar_of infos p)) [
  | inl none_known ↦
      let step = split_none infos p ps m missing none_known in
      absurd (
        never_empty missing p
          (split_known-missing infos ps m (missing ++ p ∷ []) (ap (λ st. st.1) (sym step) ∙ e)))
  | inr (nar, there) ↦
      let step = split_some infos p nar ps m missing there in
      let same : cmp_eq q p ≡ true → nar_of infos q ≡ some nar =
        λ h. ap (nar_of infos) (eq_of_cmp_eq q p h) ∙ there in
      ap (λ st. Map.get q st.0) step
      ∙ ground (
        arith,
        split_known-get infos ps (Map.insert p nar m) missing q (ap (λ st. st.1) (sym step) ∙ e),
        Map.get-insert p q nar m,
        same,
      )
]

pub member-append :
    (q : Str) (xs ys : List Str) → member q (xs ++ ys) ≡ (member q xs || member q ys)
unfolding member
member-append q [] ys = refl
member-append q (x ∷ xs) ys = ground (arith, member-append q xs ys)

pub All_of_member {ℓ} :
    {P : Str → Type ℓ} (xs : List Str) → ((q : Str) → member q xs ≡ true → P q) → All P xs
unfolding member
All_of_member [] h = tt
All_of_member (x ∷ xs) h =
    (h x (ground (arith, Set.cmp_eq_self x)), All_of_member xs (λ q m. h q (ground arith)))

member-all_srcs :
    (drvs : Drvs) (path q : Str) (d : DrvInfo)
    → Map.get path drvs ≡ some d
    → member q d.input_srcs ≡ true
    → member q (all_srcs drvs) ≡ true
unfolding all_srcs Map.get
member-all_srcs [] path q d e h = absurd (cc e)
member-all_srcs ((j, w) ∷ drvs) path q d e h = elim (Bool-cases (cmp_eq path j)) [
  | inl same ↦
      let is : w ≡ d = ground arith in
      ground
        (arith, member-append q w.input_srcs (all_srcs drvs), ap (λ x. member q x.input_srcs) is)
  | inr other ↦ ground (
    arith,
    member-append q w.input_srcs (all_srcs drvs),
    member-all_srcs drvs path q d (ground arith) h,
  )
]

pub member-src_list :
    (drvs : Drvs) (path q : Str) (d : DrvInfo)
    → Map.get path drvs ≡ some d
    → member q d.input_srcs ≡ true
    → member q (src_list drvs) ≡ true
unfolding src_list
member-src_list drvs path q d e h =
    ground (arith, Set.member-extend q (all_srcs drvs) [], member-all_srcs drvs path q d e h)

ask-known :
    (nix : NixSource) (store : Str → Option PathInfo) (ps : List Str) (infos : Infos) (p : Str)
    → IsStore nix store
    → ask nix ps ≡ ok infos
    → member p ps ≡ true
    → known p infos ≡ store p
unfolding ask member
ask-known nix store [] infos p s e h = absurd (cc h)
ask-known nix store (q ∷ ps) infos p s e h = s (q ∷ ps) infos p e h

none_missing-ok :
    (st : List (Str × Str) × List Str) (m : List (Str × Str))
    → none_missing st ≡ ok m
    → (st.1 ≡ []) × (st.0 ≡ m)
unfolding none_missing
none_missing-ok (hashes, []) m e = (refl, cc e)
none_missing-ok (hashes, p ∷ ps) m e = absurd (cc e)

-- Every source of a derivation has the hash that the store knows.
pub source_hashes-get :
    (nix : NixSource) (store : Str → Option PathInfo) (drvs : Drvs) (m : List (Str × Str)) (p : Str)
    → IsStore nix store
    → source_hashes nix drvs ≡ ok m
    → member p (src_list drvs) ≡ true
    → Map.get p m ≡ nar_in store p
unfolding source_hashes nar_of
source_hashes-get nix store drvs m p s e h =
    let (infos, at, rest) = bind_ok (ask nix (src_list drvs)) _ m e in
    let (none_left, is) = none_missing-ok _ m rest in
    let found = split_known-get infos (src_list drvs) [] [] p none_left in
    let here : known p infos ≡ store p = ask-known nix store (src_list drvs) infos p s at h in
    ap (Map.get p) (sym is) ∙ found ∙ rw (h, here) refl
