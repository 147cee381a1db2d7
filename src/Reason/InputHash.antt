-- ===== src/Reason/InputHash.antt =====
-- The hash of the inputs of a run: the order of the inputs does not matter, their contents do.
use nix2rdf.Base.{◌≡◌, ap, List, Str}
use nix2rdf.Base.Order.{str_ord, pair_ord}
use nix2rdf.Base.Sort
use nix2rdf.Hash.Items.{sha256_hex, sha256_hex_items}
use nix2rdf.Reason.Inputs.{InputGraph, hash_items, flatten, input_hash}
use mathlib.Core.List.{Permᴰ}

module _ (digest : Str → Str) where
  hash_items-Perm :
      {is js : List InputGraph} → Permᴰ is js → Permᴰ (hash_items digest is) (hash_items digest js)
  unfolding hash_items
  hash_items-Perm Permᴰ.nil = Permᴰ.nil
  hash_items-Perm (Permᴰ.cons e d) =
      Permᴰ.cons (ap (λ i. (i.graph, sha256_hex digest i.nquads)) e) (hash_items-Perm d)
  hash_items-Perm (Permᴰ.swap e f) =
      Permᴰ.swap (ap (λ i. (i.graph, sha256_hex digest i.nquads)) e)
        (ap (λ i. (i.graph, sha256_hex digest i.nquads)) f)
  hash_items-Perm (Permᴰ.trans d d') = Permᴰ.trans (hash_items-Perm d) (hash_items-Perm d')

  -- The hash is the same in whatever order the inputs come.
  pub input_hash-Perm :
      {is js : List InputGraph} → Permᴰ is js → input_hash digest is ≡ input_hash digest js
  unfolding input_hash
  input_hash-Perm d =
      ap (λ items. sha256_hex_items digest (flatten digest items))
        (Sort.sort-Perm (hash_items-Perm d))

  abbrev pub sorted_items : List InputGraph → List (Str × Str)
  sorted_items is = Sort.sort (hash_items digest is)
