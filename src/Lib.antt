-- ===== src/Lib.antt =====
-- nix2rdf turns Nix artifacts (derivations, flakes, images, clusters) into RDF fragments, stores
-- them by identity, and runs rule packs over them. This library models the core crate, whose files
-- stand under crates/nix2rdf-core/src, and proves what makes its parts correct.
--
-- The parts and the files that model them:
-- - Base: what the code takes from Rust's standard library. Texts are lists of UTF-8 bytes
--   (Base.Text, Base.Utf8, Base.Trim, Base.Split), `BTreeSet` and `BTreeMap` are strictly increasing
--   lists (Base.Set, Base.Map) over an order (Base.Order, Base.Sort, Base.Dedup), `Path` is a list of
--   components (Base.Paths), a call that may panic has an Outcome (Base.Outcome), one that may
--   fail a Result (Base.Result). Base.Steps writes a run of changes to a fragment as the source
--   has it, Base.Update and Base.Replace are maps whose updates commute and `str::replace`.
-- - Hash (hash.rs): Items has `sha256_hex_items` and `short`, Json the `canonical_json` of a value;
--   Canonical and Sorted have its laws.
-- - Iri (iri.rs): Segment has the encoding of a path segment, StorePath the parts of a store path,
--   Instances and Kubernetes the constructors of IRIs. Base64 is the interface of the crate base64
--   with the laws it documents, Sample an instance of it.
-- - Fragment (fragment.rs): Kind has `FragmentKind` with its path and graph, Lines the fragment as a
--   set of lines, Build the adding of nodes and literals, Nquads the laws of its text, Grows the
--   laws of a fragment that lines are added to.
-- - Store (store.rs, and `write_to` and `read_quads` of fragment.rs): Files has the operations on a
--   file system, with the call that fails as an argument; Write and Listing have what holds then.
-- - DrvFile and Nix (nix/drv_file.rs, nix/model.rs): Parser reads the terms of a .drv file,
--   Derivation has `parse_drv`; Print is the notation that Nix writes, RoundTrip, Fuel and Length
--   relate the two. Closure has the loop of `read_closure`, Closed what it returns, Termination its
--   fuel; Nix.Model has `DrvInfo` and Nix.Meta the `from_json` of meta attributes.
-- - Packs (packs.rs): Resolve has the depth-first `resolve`; Contract, Visit and Load show what it
--   returns; Order defines a load order; Prefixes has `collect_prefixes`, and Bindings what it
--   binds.
-- - Reason (reason.rs): Percent has `percent_decode`, Resolve has `fragment_for_iri`, which finds the
--   fragment that an IRI's graph names, Nulls has `canonicalize_nulls` with its laws in Renaming and
--   NullNodes, Inputs has `read_input`, `objects_of` and `input_hash` with its laws in InputHash and
--   Token, Collect has `gc_derived`.
-- - Kubernetes (k8s/model.rs, k8s/manifests.rs): Objects has the accessors and the selectors, Images
--   the image references, Normalize the `normalize` of an object with its laws in Stripped, over the
--   `remove` of serde_json in Remove; Manifests has `push_object`.
-- - Kubernetes.Snapshot (k8s/snapshot.rs): Context has the index of the objects, Nodes the fragment
--   of the nodes, Pods the owners and places of pods, Containers, Workloads, Policies and Access
--   the arms of the match on a kind, Build the `build_snapshot`. Order and Identity have the laws of
--   the order of the objects, Growth those of the steps that add lines, Owners, Contents and
--   ImageLines those of what a snapshot says.
-- - Extract (extract/): Derivation, Outputs, Graph and Runtime are drv.rs; Flake is flake.rs, with
--   the references to flakes, the lock file, the inputs that follow others, and the roots; Image
--   and Image.Archive are image.rs, Nixos, NixpkgsEval and NixpkgsIndex are nixos.rs,
--   nixpkgs_eval.rs and nixpkgs_index.rs. The extractors take a NixSource (Nix.Source, the trait of
--   nix/mod.rs) and what they call of other crates (Crates). Vocab has the terms of vocab.rs that
--   they use.
--   Derivation.Success and Derivation.Edges, Graph.Agreement and Graph.Linked, Runtime.Reach and
--   Runtime.Total, and Flake.Follows.Leads have the laws.
-- - Tests: the theorems at concrete inputs, and runs of the definitions.
--
-- Extractors build fragments (Fragment) under kinds whose graph is an IRI (Iri); the store (Store)
-- files them by kind; a rule run (Reason) finds the fragments that others refer to from their IRIs,
-- resolves the packs (Packs) and names the run by hashes (Hash).
--
-- Fuel: the parser of .drv files has three steps for each byte and one more, `resolve` has one
-- call more than there are packs, `read_closure` one step for each root and each input of a file
-- and one more, and the loops over bytes have the length of the text. This is enough because each
-- step uses up a byte, a pack that is not visited, or a path that was pushed. The loop of
-- `extract_runtime_closure` has two rounds more than the store has paths, since each round but the
-- last two sees a path for the first time. `resolve_follows` takes the fuel that it is given, since
-- there are lock files on which the program does not end. The owner of a pod is looked for in three
-- rounds, as in the source.
--
-- Parameters: SHA-256, base64, zstd, the N-Quads parser of oxttl and the JSON parse and print of
-- serde_json are arguments of the definitions that use them; terms of oxrdf stand as their
-- displayed text. Nix is a record of functions; where a theorem needs that it answers what the
-- store knows, this is a hypothesis. The time of a snapshot and the name of the system are given,
-- and so are the files of an image and the entries that the tar crate reads of an archive.
-- Not modelled: process, network and directory calls; the query index and the rule engine, which
-- are calls of other crates; the generated ontology and the command line; the text of the option
-- walker; `select_inputs`, `build_program` and `run` of reason.rs.
pub mod Base
pub mod Hash
pub mod Iri
pub mod Nix
pub mod DrvFile
pub mod Fragment
pub mod Reason
pub mod Store
pub mod Packs
pub mod Kubernetes
pub mod Crates
pub mod Vocab
pub mod Extract
pub mod Tests
