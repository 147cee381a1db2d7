-- ===== src/Extract/Flake/Follows/Leads.antt =====
-- `resolve_follows` of extract/flake.rs, and where the paths of a lock file lead.
use mathlib.Core.Path.{subst}
use nix2rdf.Base.{
  Bool, true, false, ◌⊎◌, ℕ, zero, suc, ◌+◌, ◌≤◌, ◌≡◌, refl, sym, ap, ◌∙◌, inl, inr, none, some,
  List, [], ◌∷◌, Str, arith, Option-cases,
}
use nix2rdf.Extract.Flake.Follows.{
  Follow, resolved, unresolved, out_of_fuel, input_of, direct, go_on, follow_names, resolve_follows,
}
use nix2rdf.Hash.Json.{Json, Items}
use nix2rdf.Kubernetes.Objects.{elements, strings}

-- A text leads to a node, a list along a path.
is_link : Json → Bool
is_link (Json.string s) = true
is_link (Json.array xs) = true
is_link _ = false

Json-cases :
    (v : Json)
    → ((s : Str) × (v ≡ Json.string s)) ⊎ ((xs : Items) × (v ≡ Json.array xs)) ⊎ (is_link v ≡ false)
unfolding is_link
Json-cases Json.null = inr (inr refl)
Json-cases (Json.boolean b) = inr (inr refl)
Json-cases (Json.number x) = inr (inr refl)
Json-cases (Json.string s) = inl (s, refl)
Json-cases (Json.array xs) = inr (inl (xs, refl))
Json-cases (Json.object fs) = inr (inr refl)

module _ (nodes : Json) (root : Str) where
  -- From a node, a path of names leads to an input `n` of a node `p`.
  pub data Leads : Str → List Str → Str → Str → Type 0 where
    last : {cur name : Str} → Leads cur (name ∷ []) cur name
    through :
        {cur name next id p n : Str} {path : List Str}
        → input_of nodes cur name ≡ some (Json.string id)
        → Leads id (next ∷ path) p n
        → Leads cur (name ∷ next ∷ path) p n
    -- an input that follows a path itself
    along :
        {cur name next id q m p n : Str} {ids : Items} {path : List Str}
        → input_of nodes cur name ≡ some (Json.array ids)
        → Leads root (strings (elements ids)) q m
        → direct nodes q m ≡ some id
        → Leads id (next ∷ path) p n
        → Leads cur (name ∷ next ∷ path) p n

  abbrev names : ℕ → Str → List Str → Follow
  names fuel = follow_names (resolve_follows fuel nodes root) nodes

  names-string :
      (fuel : ℕ) (cur name next id : Str) (path : List Str)
      → input_of nodes cur name ≡ some (Json.string id)
      → names fuel cur (name ∷ next ∷ path) ≡ names fuel id (next ∷ path)
  unfolding follow_names
  names-string fuel cur name next id path e = ground arith

  names-array :
      (fuel : ℕ) (cur name next : Str) (ids : Items) (path : List Str)
      → input_of nodes cur name ≡ some (Json.array ids)
      → names fuel cur (name ∷ next ∷ path)
        ≡ go_on nodes
            (λ id. names fuel id (next ∷ path))
            (resolve_follows fuel nodes root (strings (elements ids)))
  unfolding follow_names
  names-array fuel cur name next ids path e = ground arith

  resolve-suc :
      (fuel : ℕ) (path : List Str)
      → resolve_follows (suc fuel) nodes root path ≡ names fuel root path
  unfolding resolve_follows
  resolve-suc fuel path = refl

  go_on-resolved :
      (q m id : Str) (next : Str → Follow)
      → direct nodes q m ≡ some id
      → go_on nodes next (resolved q m) ≡ next id
  unfolding go_on
  go_on-resolved q m id next e = ground arith

  go_on-unresolved :
      (q m : Str) (next : Str → Follow)
      → direct nodes q m ≡ none
      → go_on nodes next (resolved q m) ≡ unresolved
  unfolding go_on
  go_on-unresolved q m next e = ground arith

  -- How much fuel a path takes.
  pub depth : {cur p n : Str} {path : List Str} → Leads cur path p n → ℕ
  depth last = 0
  depth (through e l) = depth l
  depth (along e a d l) = suc (depth a) + depth l

  pub names-Leads :
      {cur p n : Str} {path : List Str} (l : Leads cur path p n) (fuel : ℕ)
      → depth l ≤ fuel
      → names fuel cur path ≡ resolved p n
  unfolding depth follow_names
  names-Leads last fuel h = refl
  names-Leads (through {cur} {name} {next} {id} {p} {n} {path} e l) fuel h =
      names-string fuel cur name next id path e ∙ names-Leads l fuel h
  names-Leads (along {cur} {name} {next} {id} {q} {m} {p} {n} {ids} {path} e a d l) zero h =
      absurd (omega arith)
  names-Leads (along {cur} {name} {next} {id} {q} {m} {p} {n} {ids} {path} e a d l) (suc fuel) h =
      let inner : resolve_follows (suc fuel) nodes root (strings (elements ids)) ≡ resolved q m =
        resolve-suc fuel _ ∙ names-Leads a fuel (omega arith) in
      names-array (suc fuel) cur name next ids path e
      ∙ ap (go_on nodes (λ x. names (suc fuel) x (next ∷ path))) inner
      ∙ go_on-resolved q m id _ d
      ∙ names-Leads l (suc fuel) (omega arith)

  go_on-inv :
      (r : Follow) (next : Str → Follow) (p n : Str)
      → go_on nodes next r ≡ resolved p n
      → (q m id : Str) × (r ≡ resolved q m)
        × (direct nodes q m ≡ some id)
        × (next id ≡ resolved p n)
  unfolding go_on
  go_on-inv (resolved q m) next p n e = elim (Option-cases (direct nodes q m)) [
    | inl missing ↦ absurd (cc (go_on-unresolved q m next missing))
    | inr (id, there) ↦ (q, m, id, refl, there, sym (go_on-resolved q m id next there) ∙ e)
  ]
  go_on-inv unresolved next p n e = absurd (cc e)
  go_on-inv out_of_fuel next p n e = absurd (cc e)

  -- What is neither a text nor a list leads nowhere.
  names-other :
      (fuel : ℕ) (cur name next : Str) (path : List Str) (target : Json)
      → input_of nodes cur name ≡ some target
      → is_link target ≡ false
      → names fuel cur (name ∷ next ∷ path) ≡ unresolved
  unfolding follow_names is_link
  names-other fuel cur name next path Json.null e h = ground arith
  names-other fuel cur name next path (Json.boolean b) e h = ground arith
  names-other fuel cur name next path (Json.number x) e h = ground arith
  names-other fuel cur name next path (Json.object fs) e h = ground arith
  names-other fuel cur name next path (Json.string s) e h = absurd (cc h)
  names-other fuel cur name next path (Json.array xs) e h = absurd (cc h)

  names-none :
      (fuel : ℕ) (cur name next : Str) (path : List Str)
      → input_of nodes cur name ≡ none
      → names fuel cur (name ∷ next ∷ path) ≡ unresolved
  unfolding follow_names
  names-none fuel cur name next path e = ground arith

  module _ (fuel : ℕ)
      (inner : (path : List Str) (p n : Str)
        → resolve_follows fuel nodes root path ≡ resolved p n
        → Leads root path p n) where
    names-sound :
        (path : List Str) (cur p n : Str) → names fuel cur path ≡ resolved p n → Leads cur path p n
    unfolding follow_names
    names-sound [] cur p n e = absurd (cc e)
    names-sound (name ∷ []) cur p n e =
        let is : (cur ≡ p) × (name ≡ n) = (cc e, cc e) in
        subst (λ x. Leads cur (name ∷ []) x n) is.0
          (subst (λ x. Leads cur (name ∷ []) cur x) is.1 last)
    names-sound (name ∷ next ∷ path) cur p n e = elim (Option-cases (input_of nodes cur name)) [
      | inl missing ↦ absurd (cc (names-none fuel cur name next path missing))
      | inr (target, there) ↦ elim (Json-cases target) [
        | inl (id, is) ↦
            let at = there ∙ ap some is in
            through at (
              names-sound (next ∷ path) id p n
                (sym (names-string fuel cur name next id path at) ∙ e))
        | inr (inl (ids, is)) ↦
            let at = there ∙ ap some is in
            let step = names-array fuel cur name next ids path at in
            let (q, m, id, res, d, rest) =
              go_on-inv (resolve_follows fuel nodes root (strings (elements ids))) _ p n
                (sym step ∙ e) in
            along at (inner _ q m res) d (names-sound (next ∷ path) id p n rest)
        | inr (inr other) ↦ absurd (cc (names-other fuel cur name next path target there other))
      ]
    ]

  pub resolve-sound :
      (fuel : ℕ) (path : List Str) (p n : Str)
      → resolve_follows fuel nodes root path ≡ resolved p n
      → Leads root path p n
  unfolding resolve_follows
  resolve-sound zero path p n e = absurd (cc e)
  resolve-sound (suc fuel) path p n e = names-sound fuel (resolve-sound fuel) path root p n e

-- A path whose first input follows the path itself is never resolved: however much fuel there is,
-- it runs out, so the program calls itself without end.
pub resolve_follows_diverges :
    (nodes : Json) (root name next : Str) (path : List Str) (ids : Items)
    → input_of nodes root name ≡ some (Json.array ids)
    → strings (elements ids) ≡ name ∷ next ∷ path
    → (fuel : ℕ) → resolve_follows fuel nodes root (name ∷ next ∷ path) ≡ out_of_fuel
unfolding resolve_follows go_on
resolve_follows_diverges nodes root name next path ids e same zero = refl
resolve_follows_diverges nodes root name next path ids e same (suc fuel) =
    names-array nodes root fuel root name next ids path e
    ∙ ap (go_on nodes (λ id. names nodes root fuel id (next ∷ path))) (
        ap (resolve_follows fuel nodes root) same
        ∙ resolve_follows_diverges nodes root name next path ids e same fuel)
