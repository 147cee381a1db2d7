-- ===== src/Base/Outcome.antt =====
-- A call that may panic, in place of returning.

pub data Outcome {ℓ} (A : Type ℓ) : Type ℓ where
  done : A → Outcome A
  panic : Outcome A

abbrev pub bind {ℓ κ} : {A : Type ℓ} {B : Type κ} → Outcome A → (A → Outcome B) → Outcome B
bind (done a) f = f a
bind panic f = panic

abbrev pub map {ℓ κ} : {A : Type ℓ} {B : Type κ} → (A → B) → Outcome A → Outcome B
map f (done a) = done (f a)
map f panic = panic
