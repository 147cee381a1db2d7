-- ===== src/Iri/Kubernetes.antt =====
-- The functions that name what a Kubernetes snapshot describes.
use nix2rdf.Base.{Option, none, some, [], ◌∷◌, ◌++◌, Str, codes}
use nix2rdf.Iri.Instances.{id, slash}
use nix2rdf.Iri.Segment.{encode_segment}

unfoldable pub k8s_cluster : Str → Str
unfolding id
k8s_cluster cluster_id = id (codes "k8s/cluster/" ++ encode_segment cluster_id)

unfoldable pub k8s_obj : Str → Str → Option Str → Str → Str
unfolding id
k8s_obj cluster_id kind (some ns) name =
    let rest = kind ++ (slash ∷ (encode_segment ns ++ (slash ∷ encode_segment name))) in
    id (codes "k8s/" ++ (encode_segment cluster_id ++ (slash ∷ rest)))
k8s_obj cluster_id kind none name =
    let rest = kind ++ (slash ∷ encode_segment name) in
    id (codes "k8s/" ++ (encode_segment cluster_id ++ (slash ∷ rest)))

unfoldable pub k8s_node : Str → Str → Str
k8s_node cluster_id name = k8s_obj cluster_id (codes "node") none name

unfoldable pub k8s_namespace : Str → Str → Str
k8s_namespace cluster_id name = k8s_obj cluster_id (codes "ns") none name

unfoldable pub k8s_container : Str → Str → Str → Str → Str → Str
unfolding id
k8s_container cluster_id kind ns name container =
    let tail = encode_segment name ++ (codes "/c/" ++ encode_segment container) in
    let rest = kind ++ (slash ∷ (encode_segment ns ++ (slash ∷ tail))) in
    id (codes "k8s/" ++ (encode_segment cluster_id ++ (slash ∷ rest)))

unfoldable pub k8s_snapshot : Str → Str → Str
unfolding id
k8s_snapshot cluster_id content_hash =
    id (codes "k8s/" ++ (encode_segment cluster_id ++ (codes "/snapshot/" ++ content_hash)))

unfoldable pub k8s_nodes_fragment : Str → Str → Str
unfolding id
k8s_nodes_fragment cluster_id content_hash =
    id (codes "k8s/" ++ (encode_segment cluster_id ++ (codes "/nodes/" ++ content_hash)))

unfoldable pub k8s_failure_domain : Str → Str → Str → Str
unfolding id
k8s_failure_domain cluster_id kind value =
    let rest = codes "/domain/" ++ (kind ++ (slash ∷ encode_segment value)) in
    id (codes "k8s/" ++ (encode_segment cluster_id ++ rest))

abbrev group_or_core : Str → Str
group_or_core [] = codes "core"
group_or_core (b ∷ s) = b ∷ s

unfoldable pub k8s_permission : Str → Str → Str → Str → Str
unfolding id
k8s_permission cluster_id api_group resource verb =
    let tail = encode_segment resource ++ (slash ∷ encode_segment verb) in
    let rest =
      codes "/permission/" ++ (encode_segment (group_or_core api_group) ++ (slash ∷ tail)) in
    id (codes "k8s/" ++ (encode_segment cluster_id ++ rest))

unfoldable pub owner : Str → Str
unfolding id
owner label_value = id (codes "org/owner/" ++ encode_segment label_value)
