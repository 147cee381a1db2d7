-- ===== src/Reason/Resolve/RoundTrip.antt =====
-- The way from a fragment's identity to its graph and back.
use nix2rdf.Base.{
  ap, ◌∙◌, All-map, ◌≢◌, ℕ, ◌≡◌, true, false, some, ◌∷◌, ◌++◌, arith, Str, codes, Lacks, str_eq,
  strip_prefix, contains, split_once_at, rsplit_once_at, strip_prefix-append, contains_of_Lacks,
  All, All-append,
}
use nix2rdf.Base.Outcome.{done}
use nix2rdf.Base.Utf8.{is_utf8}
use nix2rdf.Fragment.Kind.{FragmentKind, graph}
use nix2rdf.Iri.Base64.{Base64, IsBase64, IsBytes, is_url_safe}
use nix2rdf.Iri.Instances
use nix2rdf.Iri.Instances.{id_base, slash}
use nix2rdf.Iri.Kubernetes
use nix2rdf.Iri.Segment.{encode_segment, nar_hash_segment, encode_segment-Lacks}
use nix2rdf.Reason.Percent.{percent_decode-encode_segment}
use nix2rdf.Reason.Resolve.{
  decode_nar, resolve_oci, resolve_git, resolve_k8s, resolve_k8s_kind, resolve_kind,
  fragment_for_iri,
}

-- A hash in the SRI form `<algo>-<base64>`, with an algorithm name that fits in a segment.
pub record IsSri (c : Base64) (n : Str) : Type 0 where
  pub algo : Str
  pub b64 : Str
  pub bytes : Str
  pub form : n ≡ algo ++ b'-' ∷ b64
  pub plain : Lacks b'-' algo
  pub segment : Lacks slash algo
  pub decoded : c.std_decode b64 ≡ some bytes

-- Text of characters: what a Rust string can hold.
pub record IsText (s : Str) : Type 0 where
  pub bytes : IsBytes s
  pub utf8 : is_utf8 s ≡ true

url_safe-ne-slash : (b : ℕ) → is_url_safe b ≡ true → b ≢ slash
unfolding is_url_safe
url_safe-ne-slash b h = ground arith

module _ (c : Base64) (ok : IsBase64 c) where
  -- The identities whose graph leads back to them.
  abbrev pub IsResolvable : FragmentKind → Type 0
  IsResolvable (FragmentKind.drv h) = Unit
  IsResolvable (FragmentKind.src n) = IsSri c n
  IsResolvable (FragmentKind.pin n) = IsSri c n
  IsResolvable (FragmentKind.gen h) = Lacks slash h
  IsResolvable (FragmentKind.nixpkgs r) = Lacks slash r
  IsResolvable (FragmentKind.image d) = Unit
  IsResolvable (FragmentKind.commit repo sha) = IsText repo × Lacks slash sha
  IsResolvable (FragmentKind.k8s_snapshot cluster h) = IsText cluster
  IsResolvable (FragmentKind.k8s_nodes cluster h) = IsText cluster
  IsResolvable _ = ⊥

  nar_hash_segment_sri :
      (n : Str) (sri : IsSri c n)
      → nar_hash_segment c n ≡ sri.algo ++ (b'-' ∷ c.url_encode sri.bytes)
  unfolding nar_hash_segment
  nar_hash_segment_sri n sri =
      rw (sri.form, split_once_at b'-' sri.algo sri.b64 sri.plain, nar_hash_segment, sri.decoded)

  decode_nar_sri : (n : Str) → IsSri c n → decode_nar c (nar_hash_segment c n) ≡ n
  unfolding decode_nar
  decode_nar_sri n sri = rw (
    nar_hash_segment_sri n sri,
    split_once_at b'-' sri.algo (c.url_encode sri.bytes) sri.plain,
    decode_nar,
    ok.url_decode-encode sri.bytes (ok.std_bytes sri.b64 sri.bytes sri.decoded),
    ok.std_canonical sri.b64 sri.bytes sri.decoded,
    sri.form,
  )

  url_safe-Lacks : (s : Str) → All (λ b. is_url_safe b ≡ true) s → Lacks slash s
  url_safe-Lacks s h = All-map (λ b k. url_safe-ne-slash b k) s h

  segment_lacks : (n : Str) → IsSri c n → contains slash (nar_hash_segment c n) ≡ false
  segment_lacks n sri =
      let rest = b'-' ∷ c.url_encode sri.bytes in
      let lacks : Lacks slash (sri.algo ++ rest) = All-append _ sri.algo rest sri.segment (
        omega arith,
        url_safe-Lacks (c.url_encode sri.bytes)
            (ok.url_alphabet sri.bytes (ok.std_bytes sri.b64 sri.bytes sri.decoded)),
      ) in
      rw (nar_hash_segment_sri n sri) (contains_of_Lacks slash (sri.algo ++ rest) lacks)

  -- The two cuts in front of the match on the first segment.
  fragment_for_iri_id :
      (kind rest : Str)
      → Lacks slash kind
      → fragment_for_iri c (id_base ++ (kind ++ slash ∷ rest)) ≡ resolve_kind c kind rest
  unfolding fragment_for_iri
  fragment_for_iri_id kind rest h = rw (
    strip_prefix-append id_base (kind ++ slash ∷ rest),
    fragment_for_iri,
    split_once_at slash kind rest h,
  )

  resolve_commit :
      (repo sha : Str)
      → IsText repo
      → Lacks slash sha
      → resolve_git (encode_segment repo ++ slash ∷ sha)
        ≡ done (some (FragmentKind.commit repo sha))
  unfolding resolve_git
  resolve_commit repo sha t h = rw (
    rsplit_once_at slash (encode_segment repo) sha h,
    resolve_git,
    percent_decode-encode_segment repo t.bytes t.utf8,
  )

  resolve_cluster :
      (cluster kind h : Str)
      → IsText cluster
      → Lacks slash kind
      → resolve_k8s (encode_segment cluster ++ slash ∷ (kind ++ slash ∷ h))
        ≡ resolve_k8s_kind (encode_segment cluster) kind h
  unfolding resolve_k8s
  resolve_cluster cluster kind h t k = rw (
    split_once_at slash (encode_segment cluster) (kind ++ slash ∷ h)
        (encode_segment-Lacks cluster t.bytes),
    resolve_k8s,
    split_once_at slash kind h k,
  )

  -- From an identity to its graph and back, for every kind that an IRI determines. The engines of
  -- base64 do what their crate documents, a NAR hash is an SRI hash, encoded names are UTF-8, and
  -- hashes have no slash where the code asks for none.
  pub fragment_for_iri-graph :
      (k : FragmentKind) → IsResolvable k → fragment_for_iri c (graph c k) ≡ done (some k)
  unfolding graph resolve_kind str_eq Instances.drv Instances.src Instances.pin Instances.nixpkgs
      Instances.gen Instances.image Instances.commit Kubernetes.k8s_snapshot
      Kubernetes.k8s_nodes_fragment resolve_oci resolve_k8s_kind strip_prefix
  fragment_for_iri-graph (FragmentKind.drv h) t = fragment_for_iri_id (codes "drv") h (omega arith)
  fragment_for_iri-graph (FragmentKind.src n) t =
      fragment_for_iri_id (codes "src") (nar_hash_segment c n) (omega arith)
      ∙ ap (λ x. done (some (FragmentKind.src x))) (decode_nar_sri n t)
  fragment_for_iri-graph (FragmentKind.pin n) t =
      fragment_for_iri_id (codes "pin") (nar_hash_segment c n) (omega arith)
      ∙ rw (segment_lacks n t, decode_nar_sri n t)
  fragment_for_iri-graph (FragmentKind.gen h) t =
      fragment_for_iri_id (codes "gen") h (omega arith) ∙ rw (contains_of_Lacks slash h t)
  fragment_for_iri-graph (FragmentKind.nixpkgs r) t =
      fragment_for_iri_id (codes "nixpkgs") r (omega arith) ∙ rw (contains_of_Lacks slash r t)
  fragment_for_iri-graph (FragmentKind.image d) t =
      fragment_for_iri_id (codes "oci") (codes "sha256/" ++ d) (omega arith)
  fragment_for_iri-graph (FragmentKind.commit repo sha) (t, h) =
      fragment_for_iri_id (codes "git") (encode_segment repo ++ slash ∷ sha) (omega arith)
      ∙ resolve_commit repo sha t h
  fragment_for_iri-graph (FragmentKind.k8s_snapshot cluster h) t =
      fragment_for_iri_id (codes "k8s") (encode_segment cluster ++ (codes "/snapshot/" ++ h))
        (omega arith)
      ∙ resolve_cluster cluster (codes "snapshot") h t (omega arith)
      ∙ rw (percent_decode-encode_segment cluster t.bytes t.utf8)
  fragment_for_iri-graph (FragmentKind.k8s_nodes cluster h) t =
      fragment_for_iri_id (codes "k8s") (encode_segment cluster ++ (codes "/nodes/" ++ h))
        (omega arith)
      ∙ resolve_cluster cluster (codes "nodes") h t (omega arith)
      ∙ rw (percent_decode-encode_segment cluster t.bytes t.utf8)
  fragment_for_iri-graph _ t = absurd t
