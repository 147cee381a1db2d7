-- ===== src/Tests/Kubernetes.antt =====
-- A secret, a list of objects and an image reference.
use nix2rdf.Base.{◌≡◌, refl, some, [], codes, str_eq, arith}
use nix2rdf.Hash.Json.{Json, Fields, object, string, get, field, end}
use nix2rdf.Kubernetes.Images.{
  parse_image_ref, parse_image_ref-with_digest, with_digest, with_tag, repository, IsName,
}
use nix2rdf.Kubernetes.Manifests.{Pushes, push_object, push_object-Pushes}
use nix2rdf.Kubernetes.Normalize.{
  remove_all, modify, on_object, is_secret, normalize, secret_fields, strip_meta, volatile,
}
use nix2rdf.Kubernetes.Objects
use nix2rdf.Kubernetes.Objects.{kind, s, walk, as_str}
use nix2rdf.Kubernetes.Remove.{remove, move_last, last_key, last_value, init}

abbrev meta : Fields
meta = field (codes "uid") (string (codes "1")) (field (codes "name") (string (codes "n")) end)

abbrev secret : Fields
secret =
    field (codes "kind") (string (codes "Secret"))
      (field (codes "data") (string (codes "x")) (field (codes "metadata") (object meta) end))

abbrev stripped : Fields
stripped =
    field (codes "kind") (string (codes "Secret"))
      (field (codes "metadata") (object (field (codes "name") (string (codes "n")) end)) end)

normalize-secret : normalize (object secret) ≡ object stripped
unfolding normalize on_object modify strip_meta remove_all remove move_last last_key last_value init
    volatile is_secret secret_fields kind s walk Objects.field get as_str str_eq
normalize-secret = refl

n-IsName : IsName (codes "b")
n-IsName = omega arith

tag-IsName : IsName (codes "1.2")
tag-IsName = omega arith

parse_image_ref-with_digest_example :
    parse_image_ref (
      with_digest
        (repository (some (codes "registry:5000/a")) (with_tag (codes "b") (some (codes "1.2"))))
        (some (codes "sha256:ab")))
    ≡ (
      repository (some (codes "registry:5000/a")) (codes "b"),
      some (codes "1.2"),
      some (codes "sha256:ab"),
    )
parse_image_ref-with_digest_example =
    parse_image_ref-with_digest (some (codes "registry:5000/a")) (codes "b") (some (codes "1.2"))
      (some (codes "sha256:ab")) (omega arith) n-IsName tag-IsName

push_object-Pushes_example : Pushes [] (push_object [] (object secret))
push_object-Pushes_example = push_object-Pushes [] (object secret)
