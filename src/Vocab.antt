-- ===== src/Vocab.antt =====
-- The terms of crates/nix2rdf-core/src/vocab.rs and the namespaces of iri.rs. A term is named in
-- the program by a function of its own, which stands here as `nix` or `k8s` of its name.
use nix2rdf.Base.{◌++◌, Str, codes}

unfoldable pub nix_ns : Str
nix_ns = codes "https://w3id.org/nix2rdf/ns#"

unfoldable pub k8s_ns : Str
k8s_ns = codes "https://w3id.org/nix2rdf/k8s#"

unfoldable pub rdf_type : Str
rdf_type = codes "http://www.w3.org/1999/02/22-rdf-syntax-ns#type"

unfoldable pub xsd_ns : Str
xsd_ns = codes "http://www.w3.org/2001/XMLSchema#"

unfoldable pub nix : Str → Str
nix local = nix_ns ++ local

unfoldable pub k8s : Str → Str
k8s local = k8s_ns ++ local

unfoldable pub xsd : Str → Str
xsd local = xsd_ns ++ local

unfoldable pub xsd_date : Str
xsd_date = xsd (codes "date")

unfoldable pub xsd_date_time : Str
xsd_date_time = xsd (codes "dateTime")

unfoldable pub xsd_any_uri : Str
xsd_any_uri = xsd (codes "anyURI")
