-- ===== src/Extract/Flake/Roots.antt =====
-- `default_attrs`, `meta_for`, `extract_flake` and `commit_fragment` of flake.rs.
use nix2rdf.Base.{ℕ, Bool, false, Option, none, some, List, [], ◌∷◌, ◌++◌, Str, codes, unwrap_or}
use nix2rdf.Base.Map
use nix2rdf.Base.Order.{str_ord}
use nix2rdf.Base.Result.{Result, ok, err, ◌>>=◌, ok_or}
use nix2rdf.Base.Steps.{for_each, if_some, if_true, ◌▷◌}
use nix2rdf.Crates.{Crates}
use nix2rdf.DrvFile.Closure.{Drvs}
use nix2rdf.Extract.Derivation.{add_meta}
use nix2rdf.Extract.Flake.Lock.{lock_graph, object_entries}
use nix2rdf.Extract.Flake.Reference.{str_of, add_pin}
use nix2rdf.Extract.Graph.{EnvMode, GraphExtraction, extract_graph, nar_of}
use nix2rdf.Extract.Runtime.{Fault, lift}
use nix2rdf.Fragment.Build.{add_node, add_type, add_str, add_typed}
use nix2rdf.Fragment.Kind.{FragmentKind}
use nix2rdf.Fragment.Lines.{Fragment, new}
use nix2rdf.Hash.Json.{Json}
use nix2rdf.Iri.Instances.{drv, pin, pin_attr, commit}
use nix2rdf.Iri.Segment.{encode_segment}
use nix2rdf.Kubernetes.Objects.{field, walk}
use nix2rdf.Nix.Meta
use nix2rdf.Nix.Meta.{Meta}
use nix2rdf.Nix.Source.{Error, EvalArgs, no_field, no_nar_hash, NixSource}
use nix2rdf.Vocab.{nix, xsd_date_time}

pub record CommitInfo : Type 0 where
  pub repo : Str
  pub sha : Str
  pub committed_at : Str

pub record FlakeOptions : Type 0 where
  pub flake_ref : Str
  pub attrs : List Str
  pub system : Str
  pub commit : Option CommitInfo
  pub with_meta : Bool
  pub extract : EnvMode

pub record FlakeExtraction : Type 0 where
  pub root_nar_hash : Str
  pub snapshot : Str
  pub fragments : List Fragment
  pub graph : GraphExtraction
  pub root_drvs : List (Str × Str)

unfoldable pub package_attrs : Str → List (Str × Json) → List Str
package_attrs system [] = []
package_attrs system ((name, v) ∷ pk) =
    (codes "packages." ++ (system ++ (b'.' ∷ name))) ∷ package_attrs system pk

unfoldable pub some_attrs : Str → List Str → Result Error (List Str)
some_attrs flake_ref [] = err (no_field flake_ref)
some_attrs flake_ref (a ∷ attrs) = ok (a ∷ attrs)

unfoldable pub default_attrs : NixSource → Str → Str → Result Error (List Str)
default_attrs source flake_ref system = do
  show ← source.flake_show flake_ref
  some_attrs flake_ref
      (package_attrs system (object_entries (walk show (codes "packages" ∷ system ∷ []))))

unfoldable pub attrs_of : NixSource → FlakeOptions → Result Error (List Str)
attrs_of source opts = elim opts.attrs [
  | [] ↦ default_attrs source opts.flake_ref opts.system
  | a ∷ attrs ↦ ok (a ∷ attrs)
]

unfoldable pub installable : Str → Str → Str
installable flake_ref a = flake_ref ++ (b'#' ∷ a)

unfoldable pub installables_of : Str → List Str → List Str
installables_of flake_ref [] = []
installables_of flake_ref (a ∷ attrs) = installable flake_ref a ∷ installables_of flake_ref attrs

unfoldable pub meta_for : NixSource → Str → Str → Option Meta
meta_for source flake_ref attr =
    let args : EvalArgs = record {
      installable = some (flake_ref ++ (b'#' ∷ (attr ++ codes ".meta")));
      expr = none;
      apply = some (
          codes
            "m: { license = m.license or null; homepage = m.homepage or null; description = m.description or null; sourceProvenance = m.sourceProvenance or []; }");
      impure = false;
      label = codes "meta/" ++ encode_segment attr;
    } in
    elim (source.eval_json args) [ ok v ↦ some (Meta.from_json v) | err e ↦ none ]

unfoldable pub ask_nar : NixSource → Json → Result Error Str
ask_nar source meta = do
  path ← ok_or (no_field (codes "path")) (str_of meta (codes "path"))
  infos ← source.path_info (path ∷ [])
  ok_or (no_nar_hash path path) (nar_of infos path)

-- The NAR hash of the flake: the locked one, or that of the store copy of a local checkout.
unfoldable pub root_nar_hash : NixSource → Json → Json → Result Error Str
root_nar_hash source meta locked = elim (str_of locked (codes "narHash")) [
  | some n ↦ ok n
  | none ↦ ask_nar source meta
]

unfoldable pub first_key : Drvs → Option Str
first_key [] = none
first_key ((p, d) ∷ drvs) = some p

-- The roots by their attributes, each asked for alone; a failure leaves the attribute out.
unfoldable pub ask_roots : NixSource → Str → List Str → List (Str × Str) → List (Str × Str)
ask_roots source flake_ref [] roots = roots
ask_roots source flake_ref (a ∷ attrs) roots =
    ask_roots source flake_ref attrs
      (elim (source.derivation_show (installable flake_ref a ∷ []) false) [
        | err e ↦ roots
        | ok m ↦ if_some (Map.insert a) (first_key m) roots
      ])

-- The roots in their order, under the attributes in theirs.
unfoldable pub number_roots : List Str → Drvs → List (Str × Str) → List (Str × Str)
number_roots attrs [] roots = roots
number_roots [] ((p, d) ∷ drvs) roots = number_roots [] drvs (Map.insert p p roots)
number_roots (a ∷ attrs) ((p, d) ∷ drvs) roots = number_roots attrs drvs (Map.insert a p roots)

unfoldable pub or_numbered : List Str → Drvs → List (Str × Str) → List (Str × Str)
or_numbered attrs drvs [] = number_roots attrs drvs []
or_numbered attrs drvs (r ∷ roots) = r ∷ roots

unfoldable pub root_drvs_of : NixSource → Str → List Str → Drvs → List (Str × Str)
root_drvs_of source flake_ref [] drvs = or_numbered [] drvs []
root_drvs_of source flake_ref (a ∷ []) drvs = if_some (Map.insert a) (first_key drvs) []
root_drvs_of source flake_ref (a ∷ b ∷ attrs) drvs =
    or_numbered (a ∷ b ∷ attrs) drvs (ask_roots source flake_ref (a ∷ b ∷ attrs) [])

module _ (k : Crates) (source : NixSource) (opts : FlakeOptions) where
  -- One root: its attribute and the derivation that it evaluates to.
  unfoldable pub add_root : Str → Str → Str → Fragment → Fragment
  add_root root_nar attr d f =
      let a = pin_attr k.base64 root_nar attr in
      let root_pin = pin k.base64 root_nar in
      f
      ▷ add_type a (nix (codes "Attribute"))
      ▷ add_str k.quote a (nix (codes "attrPath")) attr
      ▷ add_node a (nix (codes "evaluatesTo")) d
      ▷ add_node root_pin (nix (codes "hasAttribute")) a
      ▷ add_node root_pin (nix (codes "hasRoot")) d
      ▷ if_true opts.with_meta (if_some (add_meta k d) (meta_for source opts.flake_ref attr))

  -- A root whose derivation was not extracted is left out.
  unfoldable pub add_root_of : Str → GraphExtraction → Str × Str → Fragment → Fragment
  add_root_of root_nar graph (attr, drv_path) =
      if_some (λ h. add_root root_nar attr (drv h)) (Map.get drv_path graph.drv_hashes)

  unfoldable pub commit_fragment : CommitInfo → Str → Fragment
  commit_fragment c snapshot =
      let node = commit c.repo c.sha in
      new (FragmentKind.commit c.repo c.sha)
      ▷ add_type node (nix (codes "Commit"))
      ▷ add_str k.quote node (nix (codes "rev")) c.sha
      ▷ add_str k.quote node (nix (codes "repo")) c.repo
      ▷ add_typed k.quote node (nix (codes "committedAt")) c.committed_at xsd_date_time
      ▷ add_node node (nix (codes "snapshot")) snapshot

  unfoldable pub commit_fragments : Str → List Fragment
  commit_fragments snapshot = elim opts.commit [
    | none ↦ []
    | some c ↦ commit_fragment c snapshot ∷ []
  ]

  -- The fragment of the root before its inputs.
  unfoldable pub root_fragment : Json → Json → Str → Fragment
  root_fragment meta locked root_nar =
      let root_pin = pin k.base64 root_nar in
      let url : Option Str = elim (str_of meta (codes "resolvedUrl")) [
        | some u ↦ some u
        | none ↦ str_of meta (codes "url")
      ] in
      new (FragmentKind.pin root_nar)
      ▷ add_pin k root_pin locked
      ▷ add_type root_pin (nix (codes "Snapshot"))
      ▷ if_some (add_str k.quote root_pin (nix (codes "lockedUrl"))) url

  -- The fragment of the root behind the lock graph: the roots and the closure.
  unfoldable pub close_root : Str → GraphExtraction → List (Str × Str) → Fragment → Fragment
  close_root root_nar graph root_drvs f =
      f
      ▷ for_each (add_root_of root_nar graph) root_drvs
      ▷ for_each (λ h. add_node (pin k.base64 root_nar) (nix (codes "closureContains")) (drv h))
          (Map.values graph.drv_hashes)

  unfoldable pub extract_flake : ℕ → Result Fault FlakeExtraction
  extract_flake fuel = do
    meta ← lift (source.flake_metadata opts.flake_ref)
    let locked = unwrap_or Json.null (field (codes "locked") meta) in
        do
          root_nar ← lift (root_nar_hash source meta locked)
          (root_frag, extra) ← lock_graph k fuel meta root_nar (root_fragment meta locked root_nar)
          attrs ← lift (attrs_of source opts)
          roots ← lift (source.derivation_show (installables_of opts.flake_ref attrs) false)
          graph ← lift (extract_graph k source (installables_of opts.flake_ref attrs) opts.extract)
          let root_drvs = root_drvs_of source opts.flake_ref attrs roots in
              let root_pin = pin k.base64 root_nar in
              let closed = close_root root_nar graph root_drvs root_frag in
              ok (record {
                root_nar_hash = root_nar;
                snapshot = root_pin;
                fragments = extra ++ (graph.fragments ++ (closed ∷ commit_fragments root_pin));
                graph = graph;
                root_drvs = root_drvs;
              })
