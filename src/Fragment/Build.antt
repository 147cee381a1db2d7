-- ===== src/Fragment/Build.antt =====
-- `Fragment::add` and what is built on it, `add_type`, `add_str`, `add_int`, `add_bool` and
-- `add_typed` of crates/nix2rdf-core/src/fragment.rs. Subjects and predicates are IRIs.
use nix2rdf.Base.{ℕ, suc, Bool, true, false, ◌∷◌, ◌++◌, Str, codes}
use nix2rdf.Base.Decimal.{format}
use nix2rdf.Base.Order.{str_ord}
use nix2rdf.Fragment.Lines.{Fragment, add, show_iri}
use nix2rdf.Vocab.{rdf_type, xsd}

-- `i64`; `negsuc n` is -(n + 1).
pub data I64 : Type 0 where
  pos negsuc : ℕ → I64

unfoldable pub show_int : I64 → Str
show_int (pos n) = format n
show_int (negsuc n) = b'-' ∷ format (suc n)

unfoldable pub show_bool : Bool → Str
show_bool true = codes "true"
show_bool false = codes "false"

-- `add` with a named node as the object.
unfoldable pub add_node : Str → Str → Str → Fragment → Fragment
add_node s p o = add (show_iri s) (show_iri p) (show_iri o)

unfoldable pub add_type : Str → Str → Fragment → Fragment
add_type s class = add_node s rdf_type class

module _ (quote : Str → Str) where
  -- `Literal::new_typed_literal` as it is displayed.
  unfoldable pub show_typed : Str → Str → Str
  show_typed v dt = quote v ++ (codes "^^" ++ show_iri dt)

  unfoldable pub add_str : Str → Str → Str → Fragment → Fragment
  add_str s p v = add (show_iri s) (show_iri p) (quote v)

  unfoldable pub add_typed : Str → Str → Str → Str → Fragment → Fragment
  add_typed s p v dt = add (show_iri s) (show_iri p) (show_typed v dt)

  unfoldable pub add_int : Str → Str → I64 → Fragment → Fragment
  add_int s p v = add_typed s p (show_int v) (xsd (codes "integer"))

  unfoldable pub add_bool : Str → Str → Bool → Fragment → Fragment
  add_bool s p v = add_typed s p (show_bool v) (xsd (codes "boolean"))
