-- ===== src/Tests/Reason.antt =====
-- Decoding, and the way from an IRI to a fragment.
use nix2rdf.Base.{◌≡◌, refl, some, [], ◌∷◌, ◌++◌, arith, Str, codes}
use nix2rdf.Base.Outcome.{done, panic}
use nix2rdf.Base.Utf8.{is_utf8, is_cont}
use nix2rdf.Fragment.Kind.{FragmentKind, graph}
use nix2rdf.Iri.Sample.{letters, letters-IsBase64}
use nix2rdf.Iri.Segment.{encode_segment}
use nix2rdf.Reason.Percent.{percent_decode, percent_decode-encode_segment, percent_decode_panics}
use nix2rdf.Reason.Resolve.{fragment_for_iri}
use nix2rdf.Reason.Resolve.RoundTrip.{IsText, fragment_for_iri-graph}

-- A repository's name with a two-byte character.
abbrev repo : Str
repo = codes "git/caf" ++ 0xC3 ∷ 0xA9 ∷ []

percent_decode-encode_segment_example : percent_decode (encode_segment repo) ≡ done repo
unfolding is_utf8 is_cont
percent_decode-encode_segment_example = percent_decode-encode_segment repo (omega arith) refl

percent_decode_panics_example : percent_decode (b'%' ∷ b'a' ∷ 0xC3 ∷ 0xA9 ∷ []) ≡ panic
unfolding is_cont
percent_decode_panics_example = percent_decode_panics b'a' 0xC3 0xA9 [] (omega arith) refl

repo-IsText : IsText repo
unfolding is_utf8 is_cont
repo-IsText = record { bytes = omega arith; utf8 = refl }

fragment_for_iri-graph_example :
    fragment_for_iri letters (graph letters (FragmentKind.commit repo (codes "abc")))
    ≡ done (some (FragmentKind.commit repo (codes "abc")))
fragment_for_iri-graph_example =
    fragment_for_iri-graph letters letters-IsBase64 (FragmentKind.commit repo (codes "abc"))
      (repo-IsText, omega arith)
