-- ===== src/Casext/MediaTypeLaws.antt =====
-- oci/casext/mediatype/parse.go: what the registry knows after a registration, and that no document
-- is read in two ways.
use umoci.Base.{
  ◌≡◌, refl, ap, ◌∙◌, Bool, true, false, String, some, [], ◌∷◌, Text, str_eq, eq_iff, arith,
  if◌then◌else◌,
}
use umoci.Base.Dict.{lookup, insert, contains, lookup-insert, eq_self}
use umoci.Base.Result.{ok}
use umoci.Casext.MediaType.{
  Parsed, ParseFunc, Registry, Registered, ending, not_struct, get_parser, is_registered_package,
  register_parser, is_target, IndexDocument, ManifestDocument, Decoder, fits_type, is_empty,
  check_index, check_manifest, index_parser, manifest_parser, index_type, manifest_type,
}

-- Encoding/json on the same text for both structures: the field of the media type is the same, and
-- a list that is not empty has JSON that is not empty.
pub record IsLawful (J : Decoder) : Type 0 where
  pub same_type :
      (b : Text) {d : IndexDocument} {e : ManifestDocument}
      → J.index_document b ≡ ok d
      → J.manifest_document b ≡ ok e
      → d.index.media_type ≡ e.manifest.media_type
  pub layers_raw :
      (b : Text) {d : IndexDocument} {e : ManifestDocument}
      → J.index_document b ≡ ok d
      → J.manifest_document b ≡ ok e
      → is_empty d.layers ≡ true
      → e.manifest.layers ≡ []
  pub manifests_raw :
      (b : Text) {d : IndexDocument} {e : ManifestDocument}
      → J.index_document b ≡ ok d
      → J.manifest_document b ≡ ok e
      → is_empty e.manifests ≡ true
      → d.index.manifests ≡ []

check_index-ok :
    (d : IndexDocument) {p : Parsed}
    → check_index d ≡ ok p
    → (fits_type d.index.media_type index_type ≡ true) × (is_empty d.layers ≡ true)
unfolding check_index
check_index-ok d h = ground arith

check_manifest-ok :
    (d : ManifestDocument) {p : Parsed}
    → check_manifest d ≡ ok p
    → (fits_type d.manifest.media_type manifest_type ≡ true) × (is_empty d.manifests ≡ true)
unfolding check_manifest
check_manifest-ok d h = ground arith

no_type :
    (found : String)
    → fits_type found index_type ≡ true
    → fits_type found manifest_type ≡ true
    → found ≡ ""
no_type found h k = ground (
  arith,
  eq_iff found "",
  eq_iff found index_type,
  eq_iff found manifest_type,
  eq_iff index_type manifest_type,
)

-- A text that both the parser of indices and the parser of manifests accept, with a decoder that
-- reads it alike for both, has no media type, no manifests and no layers.
pub index_parser-manifest_parser :
    (J : Decoder)
    → IsLawful J
    → (b : Text) (d : IndexDocument) (e : ManifestDocument) (p q : Parsed)
    → J.index_document b ≡ ok d
    → J.manifest_document b ≡ ok e
    → index_parser J (some b) ≡ ok p
    → manifest_parser J (some b) ≡ ok q
    → (d.index.media_type ≡ "") × (d.index.manifests ≡ []) × (e.manifest.layers ≡ [])
unfolding index_parser manifest_parser
index_parser-manifest_parser J L b d e p q rd re hp hq =
    let x = check_index-ok d (rw rd at hp) in
    let y = check_manifest-ok e (rw re at hq) in
    (
      no_type d.index.media_type x.0 (rw (L.same_type b rd re) y.0),
      L.manifests_raw b rd re y.1,
      L.layers_raw b rd re x.1,
    )

abbrev with_parser : String → ParseFunc → Registry → Registry
with_parser t p g = record g { parsers = insert t p g.parsers; packages = p.pkg_path ∷ g.packages }

register_parser-eq :
    (t : String) (p : ParseFunc) (g : Registry)
    → p.is_struct ≡ true
    → (register_parser t p g).1 ≡ with_parser t p g
unfolding register_parser
register_parser-eq t p g s =
    ap
      (λ (b : Bool).
        (if◌then◌else◌ {A = Registered × Registry} b
          (ending (lookup t g.parsers), with_parser t p g) (not_struct, g)).1)
      s

-- After RegisterParser is given a parser that returns a struct, even where it then panics about an
-- older parser, GetParser gives that parser for its media type and what it gave before for any
-- other, its package is registered, and other media types are targets as they were before.
pub register_parser-get_parser :
    (t : String) (p : ParseFunc) (g : Registry)
    → p.is_struct ≡ true
    → (get_parser (register_parser t p g).1 t ≡ some p)
      × (is_registered_package (register_parser t p g).1 p.pkg_path ≡ true)
      × ((u : String)
          → str_eq t u ≡ false
          → get_parser (register_parser t p g).1 u ≡ get_parser g u)
      × ((u : String) → str_eq t u ≡ false → is_target (register_parser t p g).1 u ≡ is_target g u)
unfolding get_parser is_registered_package is_target contains
register_parser-get_parser t p g s = rw (register_parser-eq t p g s) (
  lookup-insert t t p g.parsers ∙ rw (eq_self t) refl,
  rw (eq_self p.pkg_path) refl,
  λ u n. lookup-insert t u p g.parsers ∙ rw n refl,
  λ u n. rw (lookup-insert t u p g.parsers) (rw n refl),
)
