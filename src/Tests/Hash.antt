-- ===== src/Tests/Hash.antt =====
-- Framing and canonical JSON.
use nix2rdf.Base.{◌≡◌, ◌≢◌, ◌⊎◌, refl, [], ◌∷◌, ◌++◌, arith, Str, codes, List}
use nix2rdf.Hash.Canonical.{Reordered, ReorderedFields, canonical_json-Reordered}
use nix2rdf.Hash.Items.{frames, sha256_hex_items-eq}
use nix2rdf.Hash.Json.{Json, Fields, canonical_json}

abbrev two : List Str
two = codes "a" ∷ codes "b" ∷ []

sha256_hex_items-eq_example :
    (two ≡ two)
    ⊎ ((frames two ≢ frames two) × ((codes "0" ++ frames two) ≡ (codes "0" ++ frames two)))
sha256_hex_items-eq_example =
    sha256_hex_items-eq (λ s. codes "0" ++ s) two two (omega arith) (omega arith) refl

abbrev object_ab : Json
object_ab =
    Json.object (Fields.field (codes "a") Json.null (Fields.field (codes "b") Json.null Fields.end))

abbrev object_ba : Json
object_ba =
    Json.object (Fields.field (codes "b") Json.null (Fields.field (codes "a") Json.null Fields.end))

a-ne-b : codes "a" ≢ codes "b"
a-ne-b e = ground arith

ab_Reordered : Reordered object_ab object_ba
ab_Reordered = Reordered.in_object (ReorderedFields.swap a-ne-b)

abbrev fields_only : Json → Str
fields_only (Json.object (Fields.field k v fs)) = k
fields_only _ = []

canonical_json-Reordered_example :
    canonical_json fields_only object_ab ≡ canonical_json fields_only object_ba
canonical_json-Reordered_example = canonical_json-Reordered fields_only ab_Reordered
