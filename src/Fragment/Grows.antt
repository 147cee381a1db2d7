-- ===== src/Fragment/Grows.antt =====
-- The building of a fragment in fragment.rs, with the lines that it has and the kind that it keeps.
use mathlib.Core.List.{Memᴰ}
use mathlib.Core.List.Memᴰ
use mathlib.Core.Path.{subst}
use nix2rdf.Base.{
  ◌≡◌, refl, ◌∙◌, Bool, true, false, inl, inr, Option, none, some, List, [], ◌∷◌, Str, arith,
}
use nix2rdf.Base.Order.{str_ord}
use nix2rdf.Base.Set
use nix2rdf.Base.Set.{member}
use nix2rdf.Base.Steps.{for_each, if_some, if_true}
use nix2rdf.Fragment.Build.{
  add_node, add_type, add_str, add_bool, add_int, add_typed, I64, show_typed,
}
use nix2rdf.Fragment.Lines.{Fragment, add, triple, show_iri}

-- The fragment has the line.
abbrev pub Has : Str → Fragment → Type 0
Has l f = member l f.lines ≡ true

-- The second fragment is the first with lines added.
pub record Grows (f g : Fragment) : Type 0 where
  pub same_kind : g.kind ≡ f.kind
  pub keeps : (l : Str) → Has l f → Has l g

-- The line of an edge between two nodes.
abbrev pub edge : Str → Str → Str → Str
edge s p o = triple (show_iri s) (show_iri p) (show_iri o)

pub Grows-refl : (f : Fragment) → Grows f f
Grows-refl f = record { same_kind = refl; keeps = λ l h. h }

pub Grows-trans : (f g h : Fragment) → Grows f g → Grows g h → Grows f h
Grows-trans f g h a b = record {
  same_kind = b.same_kind ∙ a.same_kind;
  keeps = λ l m. b.keeps l (a.keeps l m);
}

pub add-Grows : (f x : Fragment) (s p o : Str) → Grows f x → Grows f (add s p o x)
unfolding add
add-Grows f x s p o g = record {
  same_kind = g.same_kind;
  keeps = λ l h. ground (arith, Set.member-insert l (triple s p o) x.lines, g.keeps l h);
}

pub add-Has : (s p o : Str) (f : Fragment) → Has (triple s p o) (add s p o f)
unfolding add
add-Has s p o f =
    ground (
      arith,
      Set.member-insert (triple s p o) (triple s p o) f.lines,
      Set.cmp_eq_self (triple s p o),
    )

pub add_node-Grows : (f x : Fragment) (s p o : Str) → Grows f x → Grows f (add_node s p o x)
unfolding add_node
add_node-Grows f x s p o = add-Grows f x (show_iri s) (show_iri p) (show_iri o)

pub add_node-Has : (s p o : Str) (f : Fragment) → Has (edge s p o) (add_node s p o f)
unfolding add_node
add_node-Has s p o = add-Has (show_iri s) (show_iri p) (show_iri o)

pub add_type-Grows : (f x : Fragment) (s class : Str) → Grows f x → Grows f (add_type s class x)
unfolding add_type
add_type-Grows f x s class = add_node-Grows f x s _ class

module _ (f x : Fragment) (quote : Str → Str) (s p : Str) where
  pub add_str-Grows : (v : Str) → Grows f x → Grows f (add_str quote s p v x)
  unfolding add_str
  add_str-Grows v = add-Grows f x (show_iri s) (show_iri p) (quote v)

  pub add_typed-Grows : (v dt : Str) → Grows f x → Grows f (add_typed quote s p v dt x)
  unfolding add_typed
  add_typed-Grows v dt = add-Grows f x (show_iri s) (show_iri p) (show_typed quote v dt)

  pub add_bool-Grows : (v : Bool) → Grows f x → Grows f (add_bool quote s p v x)
  unfolding add_bool
  add_bool-Grows v = add_typed-Grows _ _

  pub add_int-Grows : (v : I64) → Grows f x → Grows f (add_int quote s p v x)
  unfolding add_int
  add_int-Grows v = add_typed-Grows _ _

module _ {ℓ} {A : Type ℓ} (step : A → Fragment → Fragment) (f : Fragment) where
  pub if_some-Grows :
      (x : Fragment) (o : Option A)
      → ((a : A) → Grows x (step a x))
      → Grows f x
      → Grows f (if_some step o x)
  if_some-Grows x none each g = g
  if_some-Grows x (some a) each g = Grows-trans f x (step a x) g (each a)

  pub for_each-Grows :
      (x : Fragment) (xs : List A)
      → ((a : A) (y : Fragment) → Grows y (step a y))
      → Grows f x
      → Grows f (for_each step xs x)
  unfolding for_each
  for_each-Grows x [] each g = g
  for_each-Grows x (a ∷ xs) each g =
      for_each-Grows (step a x) xs each (Grows-trans f x (step a x) g (each a x))

-- A line that the step puts in for one of the elements.
pub for_each-Has {ℓ} :
    {A : Type ℓ} (step : A → Fragment → Fragment)
    → ((a : A) (y : Fragment) → Grows y (step a y))
    → (l : Str) (a : A) (xs : List A) (f : Fragment) → ((y : Fragment) → Has l (step a y))
    → Memᴰ a xs
    → Has l (for_each step xs f)
unfolding for_each
for_each-Has step each l a [] f h m = absurd (Memᴰ.not-nil m)
for_each-Has step each l a (b ∷ xs) f h m = elim (Memᴰ.cases_cons m) [
  | inl same ↦
      let here : Has l (step b f) = subst (λ z. Has l (step z f)) same (h f) in
      (for_each-Grows step (step b f) (step b f) xs each (Grows-refl (step b f))).keeps l here
  | inr later ↦ for_each-Has step each l a xs (step b f) h later
]

pub if_true-Grows :
    (step : Fragment → Fragment) (f x : Fragment) (b : Bool)
    → Grows x (step x)
    → Grows f x
    → Grows f (if_true b step x)
if_true-Grows step f x true each g = Grows-trans f x (step x) g each
if_true-Grows step f x false each g = g

pub ruleset growth = (
  Grows-refl, add_node-Grows, add_type-Grows, add_str-Grows, add_typed-Grows, add_bool-Grows,
  add_int-Grows,
)
