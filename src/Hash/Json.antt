-- ===== src/Hash/Json.antt =====
-- JSON values, and `canonical_json`. The compact print of a value, `serde_json::to_string`, is a
-- parameter.
use nix2rdf.Base.{ℕ, Bool, Option, none, some, Str, if◌then◌else◌, str_eq}
use nix2rdf.Base.Order.{str_cmp, str_ord}
use Prim.Native.Nat.{Ordering}

-- `serde_json::Number`; `neg_int n` is -(n + 1), and a float is its print.
pub data Number : Type 0 where
  pos_int neg_int : ℕ → Number
  float : Str → Number

mutual
  pub data Json : Type 0 where
    null : Json
    boolean : Bool → Json
    number : Number → Json
    string : Str → Json
    array : Items → Json
    object : Fields → Json

  pub data Items : Type 0 where
    nil : Items
    cons : Json → Items → Items

  pub data Fields : Type 0 where
    end : Fields
    field : Str → Json → Fields → Fields

-- `Map::get`
unfoldable pub get : Str → Fields → Option Json
get k end = none
get k (field j v fs) = if str_eq k j then some v else get k fs

-- `sort_by` on the keys is stable, and inserting a key again would replace its value: of two
-- entries with one key the later stays.
unfoldable pub insert_field : Str → Json → Fields → Fields
insert_field k v end = field k v end
insert_field k v (field j w fs) =
    let later = field j w (insert_field k v fs) in
    elim (str_cmp k j) [
      | Ordering.lt ↦ field k v (field j w fs)
      | Ordering.eq ↦ field j w fs
      | Ordering.gt ↦ later
    ]

unfoldable mutual
  pub sort : Json → Json
  sort null = null
  sort (boolean b) = boolean b
  sort (number n) = number n
  sort (string s) = string s
  sort (array xs) = array (sort_items xs)
  sort (object fs) = object (sort_fields fs)

  pub sort_items : Items → Items
  sort_items nil = nil
  sort_items (cons v xs) = cons (sort v) (sort_items xs)

  pub sort_fields : Fields → Fields
  sort_fields end = end
  sort_fields (field k v fs) = insert_field k (sort v) (sort_fields fs)

unfoldable pub canonical_json : (Json → Str) → Json → Str
canonical_json to_string v = to_string (sort v)
