-- ===== src/Kubernetes/Manifests.antt =====
-- `push_object` of k8s/manifests.rs: a document becomes the objects of a snapshot, lists flattened.
use nix2rdf.Base.{
  ◌≡◌, refl, sym, ap, ◌∙◌, inl, inr, Bool, true, false, ◌||◌, List, [], ◌∷◌, ◌++◌, append_assoc,
  append-nil, Str, codes, str_eq, if◌then◌else◌, arith, Bool-cases, All, All-append,
}
use nix2rdf.Base.Paths.{ends_with}
use nix2rdf.Hash.Json.{
  Json, Fields, Items, null, boolean, number, string, array, object, nil, cons, end, field,
}
use nix2rdf.Kubernetes.Objects.{kind}
use nix2rdf.Kubernetes.Normalize.{normalize}

unfoldable pub is_list : Json → Bool
is_list v = str_eq (kind v) (codes "List") || ends_with (codes "List") (kind v)

unfoldable pub has_kind : Json → Bool
has_kind v = elim (kind v) [ [] ↦ false | _ ∷ _ ↦ true ]

unfoldable mutual
  pub push_object : List Json → Json → List Json
  push_object out (object fs) =
      let listed = push_field out fs in
      if is_list (object fs)
      then listed
      else if has_kind (object fs)
      then out ++ normalize (object fs) ∷ []
      else out
  push_object out null = out
  push_object out (boolean b) = out
  push_object out (number n) = out
  push_object out (string s) = out
  push_object out (array xs) = out

  -- `v.get("items")`, if it is an array.
  pub push_field : List Json → Fields → List Json
  push_field out end = out
  push_field out (field k v fs) =
      let here = push_array out v in
      let later = push_field out fs in if str_eq (codes "items") k then here else later

  pub push_array : List Json → Json → List Json
  push_array out (array xs) = push_items out xs
  push_array out (object fs) = out
  push_array out null = out
  push_array out (boolean b) = out
  push_array out (number n) = out
  push_array out (string s) = out

  pub push_items : List Json → Items → List Json
  push_items out nil = out
  push_items out (cons v xs) = push_items (push_object out v) xs

-- A normalized object that has a kind and is no list.
abbrev pub IsResource : Json → Type 0
IsResource w =
    (fs : Fields) × (w ≡ normalize (object fs))
    × (is_list (object fs) ≡ false)
    × (has_kind (object fs) ≡ true)

push_object_list :
    (out : List Json) (fs : Fields)
    → is_list (object fs) ≡ true
    → push_object out (object fs) ≡ push_field out fs
unfolding push_object
push_object_list out fs h = ground arith

push_object_resource :
    (out : List Json) (fs : Fields)
    → is_list (object fs) ≡ false
    → has_kind (object fs) ≡ true
    → push_object out (object fs) ≡ out ++ normalize (object fs) ∷ []
unfolding push_object
push_object_resource out fs h k = ground arith

push_object_other :
    (out : List Json) (fs : Fields)
    → is_list (object fs) ≡ false
    → has_kind (object fs) ≡ false
    → push_object out (object fs) ≡ out
unfolding push_object
push_object_other out fs h k = ground arith

push_field_here :
    (out : List Json) (k : Str) (v : Json) (fs : Fields)
    → str_eq (codes "items") k ≡ true
    → push_field out (field k v fs) ≡ push_array out v
unfolding push_field
push_field_here out k v fs h = ground arith

push_field_later :
    (out : List Json) (k : Str) (v : Json) (fs : Fields)
    → str_eq (codes "items") k ≡ false
    → push_field out (field k v fs) ≡ push_field out fs
unfolding push_field
push_field_later out k v fs h = ground arith

-- New resources behind those that were there.
abbrev pub Pushes : List Json → List Json → Type 0
Pushes out result = (new : List Json) × (result ≡ out ++ new) × All IsResource new

Pushes-nothing : (out : List Json) → Pushes out out
Pushes-nothing out = ([], sym (append-nil out), tt)

Pushes-of : (out r r' : List Json) → r ≡ r' → Pushes out r' → Pushes out r
Pushes-of out r r' e (new, f, h) = (new, e ∙ f, h)

mutual
  unfolding push_object

  push_object-Pushes' : (out : List Json) (v : Json) → Pushes out (push_object out v)
  push_object-Pushes' out (object fs) = elim (Bool-cases (is_list (object fs))) [
    | inl listed ↦ Pushes-of out _ _ (push_object_list out fs listed) (push_field-Pushes out fs)
    | inr single ↦ elim (Bool-cases (has_kind (object fs))) [
      | inl kinded ↦ (
        normalize (object fs) ∷ [],
        push_object_resource out fs single kinded,
        ((fs, refl, single, kinded), tt),
      )
      | inr none' ↦ Pushes-of out _ _ (push_object_other out fs single none') (Pushes-nothing out)
    ]
  ]
  push_object-Pushes' out null = Pushes-nothing out
  push_object-Pushes' out (boolean b) = Pushes-nothing out
  push_object-Pushes' out (number n) = Pushes-nothing out
  push_object-Pushes' out (string s) = Pushes-nothing out
  push_object-Pushes' out (array xs) = Pushes-nothing out

  push_field-Pushes : (out : List Json) (fs : Fields) → Pushes out (push_field out fs)
  push_field-Pushes out end = Pushes-nothing out
  push_field-Pushes out (field k v fs) = elim (Bool-cases (str_eq (codes "items") k)) [
    | inl here ↦ Pushes-of out _ _ (push_field_here out k v fs here) (push_array-Pushes out v)
    | inr later ↦ Pushes-of out _ _ (push_field_later out k v fs later) (push_field-Pushes out fs)
  ]

  push_array-Pushes : (out : List Json) (v : Json) → Pushes out (push_array out v)
  push_array-Pushes out (array xs) = push_items-Pushes out xs
  push_array-Pushes out (object fs) = Pushes-nothing out
  push_array-Pushes out null = Pushes-nothing out
  push_array-Pushes out (boolean b) = Pushes-nothing out
  push_array-Pushes out (number n) = Pushes-nothing out
  push_array-Pushes out (string s) = Pushes-nothing out

  push_items-Pushes : (out : List Json) (xs : Items) → Pushes out (push_items out xs)
  push_items-Pushes out nil = Pushes-nothing out
  push_items-Pushes out (cons v xs) =
      let (new, e, h) = push_object-Pushes' out v in
      let (more, f, k) = push_items-Pushes (push_object out v) xs in
      (
        new ++ more,
        f ∙ ap (λ r. r ++ more) e ∙ append_assoc out new more,
        All-append IsResource new more h k,
      )

-- Pushing a document keeps the objects that were there and adds normalized objects behind them,
-- each with a kind and none of them a list, however deep lists are nested.
pub push_object-Pushes : (out : List Json) (v : Json) → Pushes out (push_object out v)
push_object-Pushes out v = push_object-Pushes' out v
