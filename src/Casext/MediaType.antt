-- ===== src/Casext/MediaType.antt =====
-- oci/casext/mediatype/parse.go: the registry of parsers and targets, and the parsers of indices and
-- manifests. The JSON decoder is a parameter.
use umoci.Base.{
  Bool, true, false, not, ◌||◌, String, Option, none, some, List, [], ◌∷◌, Text, str_eq,
  if◌then◌else◌,
}
use umoci.Base.Dict.{Dict, lookup, insert, contains}
use umoci.Base.Errors.{GoError, sentinel}
use umoci.Base.Result.{Result, ok, err, ◌>>=◌}
use umoci.Image.{Descriptor, Index, Manifest, Image}

-- What a parser returns.
pub data Parsed : Type 0 where
  parsed_index : Index → Parsed
  parsed_manifest : Manifest → Parsed
  parsed_image : Image → Parsed
  parsed_descriptor : Descriptor → Parsed

-- ParseFunc; a nil reader is `none`. The type that it returns for a nil reader has a kind and the
-- path of a package.
pub record ParseFunc : Type 0 where
  pub run : Option Text → Result GoError Parsed
  pub is_struct : Bool
  pub pkg_path : String

-- The variables of the package.
pub record Registry : Type 0 where
  pub parsers : Dict ParseFunc
  pub packages : List String
  pub targets : List String

unfoldable pub is_registered_package : Registry → String → Bool
unfolding contains
is_registered_package g pkg = contains g.packages pkg

unfoldable pub get_parser : Registry → String → Option ParseFunc
unfolding lookup
get_parser g media_type = lookup media_type g.parsers

-- How RegisterParser ends: it returns or panics.
pub data Registered : Type 0 where
  done not_struct already_registered : Registered

-- The end of RegisterParser; the parser is replaced before the panic about an old one.
abbrev pub ending : Option ParseFunc → Registered
ending none = done
ending (some old) = already_registered

unfoldable pub register_parser : String → ParseFunc → Registry → Registered × Registry
unfolding lookup
register_parser media_type p g =
    if p.is_struct
    then (
      ending (lookup media_type g.parsers),
      record g { parsers = insert media_type p g.parsers; packages = p.pkg_path ∷ g.packages },
    )
    else (not_struct, g)

unfoldable pub is_target : Registry → String → Bool
unfolding contains lookup
is_target g media_type =
    contains g.targets media_type
    || elim (lookup media_type g.parsers) [ none ↦ true | some p ↦ false ]

unfoldable pub register_target : String → Registry → Registry
register_target media_type g = record g { targets = media_type ∷ g.targets }

-- An index with the raw JSON of the fields that it must not have, and the same of a manifest.
pub record IndexDocument : Type 0 where
  pub index : Index
  pub config : Text
  pub layers : Text

pub record ManifestDocument : Type 0 where
  pub manifest : Manifest
  pub manifests : Text

-- json.NewDecoder(rdr).Decode into the structures.
pub record Decoder : Type 0 where
  pub index_document : Text → Result GoError IndexDocument
  pub manifest_document : Text → Result GoError ManifestDocument
  pub image : Text → Result GoError Image
  pub descriptor : Text → Result GoError Descriptor

abbrev pub index_type : String
index_type = "application/vnd.oci.image.index.v1+json"

abbrev pub manifest_type : String
manifest_type = "application/vnd.oci.image.manifest.v1+json"

abbrev pub is_empty : Text → Bool
is_empty [] = true
is_empty (c ∷ s) = false

-- The media type of the document is missing or the given one.
abbrev pub fits_type : String → String → Bool
fits_type found expected = str_eq found "" || str_eq found expected

-- The checks of indexParser on what was decoded.
unfoldable pub check_index : IndexDocument → Result GoError Parsed
check_index d =
    if not (fits_type d.index.media_type index_type)
    then err (sentinel "malicious image detected: index contained incorrect mediaType")
    else if not (is_empty d.config)
    then err (sentinel "malicious image detected: index contained forbidden 'config' field")
    else if not (is_empty d.layers)
    then err (sentinel "malicious image detected: index contained forbidden 'layers' field")
    else ok (parsed_index d.index)

-- The checks of manifestParser.
unfoldable pub check_manifest : ManifestDocument → Result GoError Parsed
check_manifest d =
    if not (fits_type d.manifest.media_type manifest_type)
    then err (sentinel "malicious manifest detected: manifest contained incorrect mediaType")
    else if not (is_empty d.manifests)
    then err
        (sentinel "malicious manifest detected: manifest contained forbidden 'manifests' field")
    else ok (parsed_manifest d.manifest)

-- ErrNilReader
abbrev pub nil_reader : GoError
nil_reader = sentinel ""

module _ (J : Decoder) where
  unfoldable pub index_parser : Option Text → Result GoError Parsed
  unfolding check_index
  index_parser none = err nil_reader
  index_parser (some b) = J.index_document b >>= check_index

  unfoldable pub manifest_parser : Option Text → Result GoError Parsed
  unfolding check_manifest
  manifest_parser none = err nil_reader
  manifest_parser (some b) = J.manifest_document b >>= check_manifest

  -- JSONParser for the two structures that it is used with.
  unfoldable pub image_parser : Option Text → Result GoError Parsed
  image_parser none = err nil_reader
  image_parser (some b) = J.image b >>= λ c. ok (parsed_image c)

  unfoldable pub descriptor_parser : Option Text → Result GoError Parsed
  descriptor_parser none = err nil_reader
  descriptor_parser (some b) = J.descriptor b >>= λ d. ok (parsed_descriptor d)
