-- ===== src/Base/Steps.antt =====
-- Loops and conditions that change a state.
use mathlib.Core.Bool.{Bool, true, false}
use mathlib.Core.Option.{Option, none, some}
use mathlib.Core.List.{List, [], ◌∷◌, Permᴰ}
use mathlib.Core.Path.{◌≡◌, refl, ap, ◌∙◌, subst}
use nix2rdf.Base.Lists.{All}

-- What a call makes of its receiver: `x ▷ f` stands for `x.f`.
infixl 4 ◌▷◌
abbrev pub ◌▷◌ {ℓ κ} : {A : Type ℓ} {B : Type κ} → A → (A → B) → B
x ▷ f = f x

module _ {ℓ κ} {A : Type ℓ} {F : Type κ} where
  -- `for x in xs { step }`
  unfoldable pub for_each : (A → F → F) → List A → F → F
  for_each step [] f = f
  for_each step (x ∷ xs) f = for_each step xs (step x f)

  -- `if let Some(x) = o { step }`
  abbrev pub if_some : (A → F → F) → Option A → F → F
  if_some step none f = f
  if_some step (some x) f = step x f

abbrev pub if_true {κ} : {F : Type κ} → Bool → (F → F) → F → F
if_true true step f = step f
if_true false step f = f

pub All-Perm {ℓ μ} :
    {A : Type ℓ} (P : A → Type μ) {xs ys : List A} → Permᴰ xs ys → All P xs → All P ys
All-Perm P Permᴰ.nil h = h
All-Perm P (Permᴰ.cons e d) (p, h) = (subst P e p, All-Perm P d h)
All-Perm P (Permᴰ.swap e f) (p, (q, h)) = (subst P f q, (subst P e p, h))
All-Perm P (Permᴰ.trans d d') h = All-Perm P d' (All-Perm P d h)

module _ {ℓ κ μ} {A : Type ℓ} {F : Type κ} (P : A → Type μ) where
  -- Where the steps of two elements may be swapped, the order of the elements does not matter.
  pub for_each-Perm :
      (step : A → F → F)
      → ((a b : A) (f : F) → P a → P b → step a (step b f) ≡ step b (step a f))
      → {xs ys : List A} → Permᴰ xs ys
      → All P xs
      → (f : F) → for_each step xs f ≡ for_each step ys f
  unfolding for_each
  for_each-Perm step comm Permᴰ.nil h f = refl
  for_each-Perm step comm (Permᴰ.cons {a} {b} {l₁} {l₂} e d) (p, h) f =
      for_each-Perm step comm d h (step a f) ∙ ap (λ x. for_each step l₂ (step x f)) e
  for_each-Perm step comm (Permᴰ.swap {a} {b} {a'} {b'} {l} e f') (p, (q, h)) f =
      ap (for_each step l) (comm b a f q p)
      ∙ ap (λ x. for_each step l (step a (step x f))) f'
      ∙ ap (λ x. for_each step l (step x (step a' f))) e
  for_each-Perm step comm (Permᴰ.trans d d') h f =
      for_each-Perm step comm d h f ∙ for_each-Perm step comm d' (All-Perm P d h) f
