-- ===== src/Hash/Sorted.antt =====
-- The form of the values that `canonical_json` prints.
use Prim.Native.Nat.{Ordering}
use nix2rdf.Base.{◌≡◌, refl, ap, Str, sym, ◌∙◌, arith, inl, inr}
use nix2rdf.Base.Order.{str_cmp, str_ord, Ordering-cases}
use nix2rdf.Hash.Canonical.{insert_field_comm}
use nix2rdf.Hash.Json.{
  Json, Items, Fields, null, boolean, number, string, array, object, nil, cons, end, field,
  insert_field, sort, sort_items, sort_fields,
}

insert_field-lt :
    (k j : Str) (v w : Json) (fs : Fields)
    → str_cmp k j ≡ Ordering.lt
    → insert_field k v (field j w fs) ≡ field k v (field j w fs)
unfolding insert_field
insert_field-lt k j v w fs e = ground arith

insert_field-eq :
    (k j : Str) (v w : Json) (fs : Fields)
    → str_cmp k j ≡ Ordering.eq
    → insert_field k v (field j w fs) ≡ field j w fs
unfolding insert_field
insert_field-eq k j v w fs e = ground arith

insert_field-gt :
    (k j : Str) (v w : Json) (fs : Fields)
    → str_cmp k j ≡ Ordering.gt
    → insert_field k v (field j w fs) ≡ field j w (insert_field k v fs)
unfolding insert_field
insert_field-gt k j v w fs e = ground arith

insert_field_absorb :
    (k : Str) (v w : Json) (fs : Fields)
    → insert_field k v (insert_field k w fs) ≡ insert_field k w fs
unfolding insert_field
insert_field_absorb k v w end = ground (arith, str_ord.cmp_refl k)
insert_field_absorb k v w (field i x fs) =
    ground (arith, insert_field_absorb k v w fs, str_ord.cmp_refl k)

sort_fields-insert_field :
    (k : Str) (v : Json) (fs : Fields)
    → sort_fields (insert_field k v fs) ≡ insert_field k (sort v) (sort_fields fs)
unfolding sort
sort_fields-insert_field k v end = unfold insert_field in refl
sort_fields-insert_field k v (field j w fs) = elim (Ordering-cases (str_cmp k j)) [
  | inl lt ↦ ap sort_fields (insert_field-lt k j v w fs lt)
  | inr (inl eq) ↦
      ap sort_fields (insert_field-eq k j v w fs eq)
      ∙ rw (str_ord.eq_of_cmp k j eq)
          (sym (insert_field_absorb j (sort v) (sort w) (sort_fields fs)))
  | inr (inr gt) ↦
      ap sort_fields (insert_field-gt k j v w fs gt)
      ∙ ap (insert_field j (sort w)) (sort_fields-insert_field k v fs)
      ∙ insert_field_comm j k (sort w) (sort v) (sort_fields fs)
          (λ p. cc (gt, str_ord.cmp_refl k, ap (str_cmp k) p))
]

mutual
  unfolding sort

  sort-sort : (v : Json) → sort (sort v) ≡ sort v
  sort-sort null = refl
  sort-sort (boolean b) = refl
  sort-sort (number n) = refl
  sort-sort (string s) = refl
  sort-sort (array xs) = ap array (sort_items-sort_items xs)
  sort-sort (object fs) = ap object (sort_fields-sort_fields fs)

  sort_items-sort_items : (xs : Items) → sort_items (sort_items xs) ≡ sort_items xs
  sort_items-sort_items nil = refl
  sort_items-sort_items (cons v xs) = cc (sort-sort v, sort_items-sort_items xs)

  sort_fields-sort_fields : (fs : Fields) → sort_fields (sort_fields fs) ≡ sort_fields fs
  sort_fields-sort_fields end = refl
  sort_fields-sort_fields (field k v fs) =
      sort_fields-insert_field k (sort v) (sort_fields fs)
      ∙ cc (sort-sort v, sort_fields-sort_fields fs)

-- Every key of the object comes behind `k`.
abbrev pub Above : Str → Fields → Type 0
Above k end = Unit
Above k (field j v fs) = (str_cmp k j ≡ Ordering.lt) × Above k fs

abbrev mutual
  -- The keys of every object, at any depth, strictly increase.
  pub IsCanonical : Json → Type 0
  IsCanonical (array xs) = AreCanonical xs
  IsCanonical (object fs) = HasCanonical fs
  IsCanonical _ = Unit

  pub AreCanonical : Items → Type 0
  AreCanonical nil = Unit
  AreCanonical (cons v xs) = IsCanonical v × AreCanonical xs

  pub HasCanonical : Fields → Type 0
  HasCanonical end = Unit
  HasCanonical (field k v fs) = Above k fs × (IsCanonical v × HasCanonical fs)

Above-insert_field :
    (j k : Str) (v : Json) (fs : Fields)
    → str_cmp j k ≡ Ordering.lt
    → Above j fs
    → Above j (insert_field k v fs)
unfolding insert_field
Above-insert_field j k v end h a = (h, tt)
Above-insert_field j k v (field i w fs) h (p, a) = ground (arith, Above-insert_field j k v fs h a)

Above-trans : (k j : Str) (fs : Fields) → str_cmp k j ≡ Ordering.lt → Above j fs → Above k fs
Above-trans k j end h a = tt
Above-trans k j (field i w fs) h (p, a) = (str_ord.lt_trans k j i h p, Above-trans k j fs h a)

insert_field-HasCanonical :
    (k : Str) (v : Json) (fs : Fields)
    → IsCanonical v
    → HasCanonical fs
    → HasCanonical (insert_field k v fs)
unfolding insert_field
insert_field-HasCanonical k v end c h = (tt, (c, tt))
insert_field-HasCanonical k v (field j w fs) c (a, (d, h)) = ground (
  arith,
  insert_field-HasCanonical k v fs c h,
  Above-trans k j fs,
  Above-insert_field j k v fs,
  str_ord.lt_of_gt k j,
)

mutual
  unfolding sort

  sort-IsCanonical' : (v : Json) → IsCanonical (sort v)
  sort-IsCanonical' null = tt
  sort-IsCanonical' (boolean b) = tt
  sort-IsCanonical' (number n) = tt
  sort-IsCanonical' (string s) = tt
  sort-IsCanonical' (array xs) = sort_items-AreCanonical xs
  sort-IsCanonical' (object fs) = sort_fields-HasCanonical fs

  sort_items-AreCanonical : (xs : Items) → AreCanonical (sort_items xs)
  sort_items-AreCanonical nil = tt
  sort_items-AreCanonical (cons v xs) = (sort-IsCanonical' v, sort_items-AreCanonical xs)

  sort_fields-HasCanonical : (fs : Fields) → HasCanonical (sort_fields fs)
  sort_fields-HasCanonical end = tt
  sort_fields-HasCanonical (field k v fs) =
      insert_field-HasCanonical k (sort v) (sort_fields fs) (sort-IsCanonical' v)
        (sort_fields-HasCanonical fs)

-- Sorting gives every object, at any depth, strictly increasing keys, and changes nothing when it
-- is done again.
pub sort-IsCanonical : (v : Json) → IsCanonical (sort v) × (sort (sort v) ≡ sort v)
sort-IsCanonical v = (sort-IsCanonical' v, sort-sort v)
