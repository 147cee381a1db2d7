-- ===== src/Tests/Nix.antt =====
-- The meta attributes of a package with two licenses, one of them written twice.
use nix2rdf.Base.{◌≡◌, refl, [], ◌∷◌, codes, none, true, false, str_eq}
use nix2rdf.Base.Dedup
use nix2rdf.Base.Order.{str_cmp, str_ord}
use nix2rdf.Base.Set
use nix2rdf.Base.Sort
use nix2rdf.Hash.Json
use nix2rdf.Hash.Json.{Json, Fields, Items, object, string, array, boolean, field, end, cons, nil}
use nix2rdf.Nix.Meta.{
  from_json, license_state, one, each, license_name, not_free, is_false, text_of, as_str,
  provenance,
}

abbrev licensed : Fields
licensed =
    field (codes "license")
      (array (
        cons (string (codes "mit")) (
          cons
            (object (
              field (codes "spdxId") (string (codes "GPL"))
                (field (codes "free") (boolean false) end)))
            (cons (string (codes "mit")) nil))))
      end

licensed-meta : from_json (object licensed) ≡ record {
  licenses = codes "GPL" ∷ codes "mit" ∷ [];
  unfree = true;
  homepage = none;
  description = none;
  source_provenance = [];
}
unfolding from_json license_state one each license_name not_free is_false text_of as_str provenance
    Json.get str_eq Sort.sort Sort.insert_sorted Dedup.dedup Dedup.dedup_after str_cmp
licensed-meta = refl
