-- ===== src/Hash/Canonical.antt =====
-- What `canonical_json` makes of the order of keys.
use nix2rdf.Base.{◌≡◌, ◌≢◌, refl, ap, Str, ◌∙◌, arith}
use nix2rdf.Base.Order.{gt_of_lt, str_ord}
use nix2rdf.Hash.Json.{
  Json, Items, Fields, array, object, nil, cons, end, field, insert_field, sort, sort_items,
  sort_fields, canonical_json,
}

-- One value is the other with the keys of some objects, at any depth, in another order.
mutual
  pub data Reordered : Json → Json → Type 0 where
    same : {v : Json} → Reordered v v
    trans : {v w x : Json} → Reordered v w → Reordered w x → Reordered v x
    in_array : {xs ys : Items} → ReorderedItems xs ys → Reordered (array xs) (array ys)
    in_object : {fs gs : Fields} → ReorderedFields fs gs → Reordered (object fs) (object gs)

  pub data ReorderedItems : Items → Items → Type 0 where
    no_items : ReorderedItems nil nil
    items :
        {v w : Json} {xs ys : Items}
        → Reordered v w
        → ReorderedItems xs ys
        → ReorderedItems (cons v xs) (cons w ys)

  pub data ReorderedFields : Fields → Fields → Type 0 where
    no_fields : ReorderedFields end end
    keep :
        {k : Str} {v w : Json} {fs gs : Fields}
        → Reordered v w
        → ReorderedFields fs gs
        → ReorderedFields (field k v fs) (field k w gs)
    swap :
        {k j : Str} {v w : Json} {fs : Fields}
        → k ≢ j
        → ReorderedFields (field k v (field j w fs)) (field j w (field k v fs))
    trans_fields :
        {fs gs hs : Fields} → ReorderedFields fs gs → ReorderedFields gs hs → ReorderedFields fs hs

pub insert_field_comm :
    (k j : Str) (v w : Json) (fs : Fields)
    → k ≢ j
    → insert_field k v (insert_field j w fs) ≡ insert_field j w (insert_field k v fs)
unfolding insert_field
insert_field_comm k j v w end ne = ground (
  arith,
  str_ord.eq_of_cmp k j,
  str_ord.eq_of_cmp j k,
  gt_of_lt str_ord k j,
  str_ord.lt_of_gt k j,
)
insert_field_comm k j v w (field i x fs) ne = ground (
  arith,
  insert_field_comm k j v w fs ne,
  str_ord.eq_of_cmp k j,
  str_ord.eq_of_cmp j k,
  str_ord.eq_of_cmp k i,
  str_ord.eq_of_cmp j i,
  gt_of_lt str_ord k j,
  str_ord.lt_of_gt k j,
  str_ord.lt_of_gt k i,
  str_ord.lt_of_gt j i,
  str_ord.lt_trans k i j,
  str_ord.lt_trans j i k,
)

mutual
  unfolding sort

  sort-Reordered : {v w : Json} → Reordered v w → sort v ≡ sort w
  sort-Reordered same = refl
  sort-Reordered (trans r q) = sort-Reordered r ∙ sort-Reordered q
  sort-Reordered (in_array r) = ap array (sort_items-Reordered r)
  sort-Reordered (in_object r) = ap object (sort_fields-Reordered r)

  sort_items-Reordered : {xs ys : Items} → ReorderedItems xs ys → sort_items xs ≡ sort_items ys
  sort_items-Reordered no_items = refl
  sort_items-Reordered (items r q) = cc (sort-Reordered r, sort_items-Reordered q)

  sort_fields-Reordered : {fs gs : Fields} → ReorderedFields fs gs → sort_fields fs ≡ sort_fields gs
  sort_fields-Reordered no_fields = refl
  sort_fields-Reordered (keep r q) = cc (sort-Reordered r, sort_fields-Reordered q)
  sort_fields-Reordered (swap {k} {j} {v} {w} {fs} ne) =
      insert_field_comm k j (sort v) (sort w) (sort_fields fs) ne
  sort_fields-Reordered (trans_fields r q) = sort_fields-Reordered r ∙ sort_fields-Reordered q

-- JSON values that differ only in the order of the different keys of objects, at any depth, have one
-- canonical text.
pub canonical_json-Reordered :
    (to_string : Json → Str) {v w : Json}
    → Reordered v w
    → canonical_json to_string v ≡ canonical_json to_string w
unfolding canonical_json
canonical_json-Reordered to_string r = ap to_string (sort-Reordered r)
