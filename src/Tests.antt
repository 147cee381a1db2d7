-- ===== src/Tests.antt =====
-- The theorems at concrete inputs, and runs of the definitions.
mod Sample
mod Base
mod Iri
mod Hash
mod Reason
mod DrvFile
mod Fragment
mod Store
mod Packs
mod Runs
mod Kubernetes
mod Closure
mod Extract
mod Snapshot
mod Flake
mod Image
mod Runtime
mod Nix
