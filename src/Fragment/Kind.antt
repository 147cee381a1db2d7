-- ===== src/Fragment/Kind.antt =====
-- `FragmentKind`: where a fragment lives and what its graph is called.
use nix2rdf.Base.{◌∷◌, ◌++◌, Str, codes}
use nix2rdf.Iri.Base64.{Base64}
use nix2rdf.Iri.Instances
use nix2rdf.Iri.Instances.{slash}
use nix2rdf.Iri.Kubernetes
use nix2rdf.Iri.Segment.{encode_segment, nar_hash_segment}

pub data FragmentKind : Type 0 where
  drv out src pin nixpkgs gen image index value env : Str → FragmentKind
  commit derived run k8s_snapshot k8s_nodes ext : Str → Str → FragmentKind
  k8s_observed : Str → Str → Str → FragmentKind

unfoldable pub kind_name : FragmentKind → Str
kind_name (FragmentKind.drv _) = codes "drv"
kind_name (FragmentKind.out _) = codes "out"
kind_name (FragmentKind.src _) = codes "src"
kind_name (FragmentKind.pin _) = codes "pin"
kind_name (FragmentKind.nixpkgs _) = codes "nixpkgs"
kind_name (FragmentKind.commit _ _) = codes "commit"
kind_name (FragmentKind.gen _) = codes "gen"
kind_name (FragmentKind.image _) = codes "image"
kind_name (FragmentKind.index _) = codes "index"
kind_name (FragmentKind.derived _ _) = codes "derived"
kind_name (FragmentKind.run _ _) = codes "run"
kind_name (FragmentKind.value _) = codes "values"
kind_name (FragmentKind.env _) = codes "env"
kind_name (FragmentKind.k8s_snapshot _ _) = codes "k8s-snapshot"
kind_name (FragmentKind.k8s_nodes _ _) = codes "k8s-nodes"
kind_name (FragmentKind.k8s_observed _ _ _) = codes "k8s-observed"
kind_name (FragmentKind.ext _ _) = codes "ext"

unfoldable pub suffix : Str
suffix = codes ".nq.zst"

module _ (c : Base64) where
  unfoldable pub relative_path : FragmentKind → Str
  relative_path (FragmentKind.drv h) = codes "drv/" ++ (h ++ suffix)
  relative_path (FragmentKind.out h) = codes "out/" ++ (h ++ suffix)
  relative_path (FragmentKind.src n) = codes "src/" ++ (nar_hash_segment c n ++ suffix)
  relative_path (FragmentKind.pin n) = codes "pin/" ++ (nar_hash_segment c n ++ suffix)
  relative_path (FragmentKind.nixpkgs r) = codes "nixpkgs/" ++ (r ++ suffix)
  relative_path (FragmentKind.commit repo sha) =
      codes "commit/" ++ (encode_segment repo ++ (slash ∷ (sha ++ suffix)))
  relative_path (FragmentKind.gen h) = codes "gen/" ++ (h ++ suffix)
  relative_path (FragmentKind.image d) = codes "image/" ++ (d ++ suffix)
  relative_path (FragmentKind.index h) = codes "index/nixpkgs-multiverse-" ++ (h ++ suffix)
  relative_path (FragmentKind.derived rules input) =
      codes "derived/" ++ (rules ++ (slash ∷ (input ++ suffix)))
  relative_path (FragmentKind.run rules input) =
      codes "runs/" ++ (rules ++ (slash ∷ (input ++ suffix)))
  relative_path (FragmentKind.value h) = codes "values/" ++ (h ++ suffix)
  relative_path (FragmentKind.env h) = codes "env/" ++ (h ++ suffix)
  relative_path (FragmentKind.k8s_snapshot cluster hash) =
      codes "k8s/" ++ (encode_segment cluster ++ (codes "/snapshot/" ++ (hash ++ suffix)))
  relative_path (FragmentKind.k8s_nodes cluster hash) =
      codes "k8s/" ++ (encode_segment cluster ++ (codes "/nodes/" ++ (hash ++ suffix)))
  relative_path (FragmentKind.k8s_observed cluster hash observed_at) =
      let file = hash ++ (b'-' ∷ (encode_segment observed_at ++ suffix)) in
      codes "k8s/" ++ (encode_segment cluster ++ (codes "/observed/" ++ file))
  relative_path (FragmentKind.ext kind id) =
      codes "ext/" ++ (encode_segment kind ++ (slash ∷ (encode_segment id ++ suffix)))

  unfoldable pub graph : FragmentKind → Str
  graph (FragmentKind.drv h) = Instances.drv h
  graph (FragmentKind.out h) = Instances.fragment (codes "out") h
  graph (FragmentKind.src n) = Instances.src c n
  graph (FragmentKind.pin n) = Instances.pin c n
  graph (FragmentKind.nixpkgs r) = Instances.nixpkgs r
  graph (FragmentKind.commit repo sha) = Instances.commit repo sha
  graph (FragmentKind.gen h) = Instances.gen h
  graph (FragmentKind.image d) = Instances.image d
  graph (FragmentKind.index h) =
      Instances.fragment (codes "index") (codes "nixpkgs-multiverse-" ++ h)
  graph (FragmentKind.derived rules input) = Instances.derived rules input
  graph (FragmentKind.run rules input) = Instances.fragment (codes "run") (rules ++ (b':' ∷ input))
  graph (FragmentKind.value h) = Instances.fragment (codes "values") h
  graph (FragmentKind.env h) = Instances.fragment (codes "env") h
  graph (FragmentKind.k8s_snapshot cluster hash) = Kubernetes.k8s_snapshot cluster hash
  graph (FragmentKind.k8s_nodes cluster hash) = Kubernetes.k8s_nodes_fragment cluster hash
  graph (FragmentKind.k8s_observed cluster hash observed_at) =
      let ident =
        encode_segment cluster ++ (slash ∷ (hash ++ (slash ∷ encode_segment observed_at))) in
      Instances.fragment (codes "k8s-observed") ident
  graph (FragmentKind.ext kind id) =
      Instances.id (encode_segment kind ++ (slash ∷ encode_segment id))
