-- ===== src/Kubernetes/Remove.antt =====
-- `Map::remove` of serde_json with `preserve_order`: the last entry takes the removed one's place.
use mathlib.Core.Path.{subst}
use nix2rdf.Base.{
  ◌≡◌, refl, sym, inl, inr, true, false, none, Str, str_eq, str_eq_refl, eq_of_str_eq,
  if◌then◌else◌, arith, Bool-cases,
}
use nix2rdf.Hash.Json.{Json, Fields, end, field, get}

-- The entry behind all others of the fields that begin with `k` and `v`, and the fields without it.
unfoldable pub last_key : Str → Fields → Str
last_key k end = k
last_key k (field j w fs) = last_key j fs

unfoldable pub last_value : Json → Fields → Json
last_value v end = v
last_value v (field j w fs) = last_value w fs

unfoldable pub init : Str → Json → Fields → Fields
init k v end = end
init k v (field j w fs) = field k v (init j w fs)

-- The last entry first.
unfoldable pub move_last : Fields → Fields
move_last end = end
move_last (field k v fs) = field (last_key k fs) (last_value v fs) (init k v fs)

unfoldable pub remove : Str → Fields → Fields
remove k end = end
remove k (field j v fs) =
    let rest = field j v (remove k fs) in if str_eq k j then move_last fs else rest

-- No key twice.
abbrev pub HasUniqueKeys : Fields → Type 0
HasUniqueKeys end = Unit
HasUniqueKeys (field k v fs) = (get k fs ≡ none) × HasUniqueKeys fs

get-move_last' :
    (j k : Str) (v : Json) (fs : Fields)
    → HasUniqueKeys (field k v fs)
    → get j (field (last_key k fs) (last_value v fs) (init k v fs)) ≡ get j (field k v fs)
unfolding last_key last_value init get
get-move_last' j k v end h = refl
get-move_last' j k v (field i w fs) (h, u) =
    ground (arith, get-move_last' j i w fs u, get-move_last' k i w fs u, eq_of_str_eq j k, h)

get-move_last : (j : Str) (fs : Fields) → HasUniqueKeys fs → get j (move_last fs) ≡ get j fs
unfolding move_last
get-move_last j end u = refl
get-move_last j (field k v fs) u = get-move_last' j k v fs u

pub get-remove :
    (j k : Str) (fs : Fields)
    → HasUniqueKeys fs
    → get j (remove k fs) ≡ (if str_eq j k then none else get j fs)
unfolding remove get move_last
get-remove j k end h = ground arith
get-remove j k (field i v fs) (h, u) = ground (
  arith,
  get-remove j k fs u,
  get-move_last j fs u,
  eq_of_str_eq k i,
  eq_of_str_eq j k,
  str_eq_refl k,
  h,
)

last_key-ne :
    (k i : Str) (v w : Json) (fs : Fields)
    → HasUniqueKeys (field k v (field i w fs))
    → str_eq (last_key i fs) k ≡ false
unfolding get
last_key-ne k i v w fs (h, u) =
    ground (arith, get-move_last' k i w fs u, eq_of_str_eq (last_key i fs) k, str_eq_refl k, h)

not_in_init :
    (k : Str) (v : Json) (fs : Fields)
    → HasUniqueKeys (field k v fs)
    → get (last_key k fs) (init k v fs) ≡ none
unfolding last_key init get
not_in_init k v end h = refl
not_in_init k v (field i w fs) h = ground (arith, last_key-ne k i v w fs h, not_in_init i w fs h.1)

get-init :
    (j k : Str) (v : Json) (fs : Fields)
    → HasUniqueKeys (field k v fs)
    → get j (field k v fs) ≡ none
    → get j (init k v fs) ≡ none
unfolding get
get-init j k v fs h e = ground (arith, get-move_last' j k v fs h)

init-HasUniqueKeys :
    (k : Str) (v : Json) (fs : Fields) → HasUniqueKeys (field k v fs) → HasUniqueKeys (init k v fs)
unfolding init
init-HasUniqueKeys k v end h = tt
init-HasUniqueKeys k v (field i w fs) (h, u) = (get-init k i w fs u h, init-HasUniqueKeys i w fs u)

move_last-HasUniqueKeys : (fs : Fields) → HasUniqueKeys fs → HasUniqueKeys (move_last fs)
unfolding move_last
move_last-HasUniqueKeys end u = tt
move_last-HasUniqueKeys (field k v fs) u = (not_in_init k v fs u, init-HasUniqueKeys k v fs u)

remove_here :
    (k j : Str) (v : Json) (fs : Fields)
    → str_eq k j ≡ true
    → remove k (field j v fs) ≡ move_last fs
unfolding remove
remove_here k j v fs h = ground arith

remove_later :
    (k j : Str) (v : Json) (fs : Fields)
    → str_eq k j ≡ false
    → remove k (field j v fs) ≡ field j v (remove k fs)
unfolding remove
remove_later k j v fs h = ground arith

pub remove-HasUniqueKeys : (k : Str) (fs : Fields) → HasUniqueKeys fs → HasUniqueKeys (remove k fs)
unfolding remove
remove-HasUniqueKeys k end u = tt
remove-HasUniqueKeys k (field j v fs) (h, u) = elim (Bool-cases (str_eq k j)) [
  | inl same ↦ subst HasUniqueKeys (sym (remove_here k j v fs same)) (move_last-HasUniqueKeys fs u)
  | inr other ↦
      subst HasUniqueKeys (sym (remove_later k j v fs other))
        (ground (arith, get-remove j k fs u), remove-HasUniqueKeys k fs u)
]

pub remove_of_missing : (k : Str) (fs : Fields) → get k fs ≡ none → remove k fs ≡ fs
unfolding remove get
remove_of_missing k end h = refl
remove_of_missing k (field j v fs) h = ground (arith, remove_of_missing k fs)
