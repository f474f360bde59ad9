-- ===== src/Tests/MediaTypes.antt =====
-- oci/casext/mediatype: two documents, and a registration.
use umoci.Base.{◌≡◌, refl, ap, true, false, none, some, String, List, [], ◌∷◌, Text, str_eq}
use umoci.Base.Errors.{GoError, sentinel}
use umoci.Base.Int.{pos}
use umoci.Base.Result.{Result, ok, err}
use umoci.Image.{Descriptor}
use umoci.Casext.MediaType.{
  parsed_index, parsed_manifest, ParseFunc, Registry, get_parser, is_registered_package,
  register_parser, is_target, IndexDocument, ManifestDocument, Decoder, is_empty, index_parser,
  manifest_parser, index_type,
}
use umoci.Casext.MediaTypeLaws.{IsLawful, index_parser-manifest_parser, register_parser-get_parser}

abbrev config : Descriptor
config = record {
  media_type = "config";
  digest = "c";
  size = pos 7;
  urls = [];
  annotations = none;
  platform = none;
}

-- A document of a list of layers that is the rest of the text; there is no media type.
abbrev layer_list : Text → List Descriptor
layer_list [] = []
layer_list (c ∷ s) = config ∷ layer_list s

abbrev as_index : Text → IndexDocument
as_index s = record {
  index = record { schema_version = 2; media_type = ""; manifests = []; annotations = none };
  config = [];
  layers = s;
}

abbrev as_manifest : Text → ManifestDocument
as_manifest s = record {
  manifest = record {
    schema_version = 2;
    media_type = "";
    config = config;
    layers = layer_list s;
    annotations = none;
  };
  manifests = [];
}

abbrev decoder : Decoder
decoder = record {
  index_document = λ s. ok (as_index s);
  manifest_document = λ s. ok (as_manifest s);
  image = λ s. err (sentinel "no image");
  descriptor = λ s. ok config;
}

abbrev index_or : IndexDocument → Result GoError IndexDocument → IndexDocument
index_or d (ok e) = e
index_or d (err x) = d

abbrev manifest_or : ManifestDocument → Result GoError ManifestDocument → ManifestDocument
manifest_or d (ok e) = e
manifest_or d (err x) = d

read_index : (b : Text) {d : IndexDocument} → decoder.index_document b ≡ ok d → as_index b ≡ d
read_index b h = ap (index_or (as_index b)) h

read_manifest :
    (b : Text) {e : ManifestDocument} → decoder.manifest_document b ≡ ok e → as_manifest b ≡ e
read_manifest b h = ap (manifest_or (as_manifest b)) h

layer_list-nil : (s : Text) → is_empty s ≡ true → layer_list s ≡ []
layer_list-nil [] h = refl
layer_list-nil (c ∷ s) h = cc

decoder-IsLawful : IsLawful decoder
decoder-IsLawful = record {
  same_type = λ b {d} {e} h k. rw (← read_index b h, ← read_manifest b k) refl;
  layers_raw =
      λ b {d} {e} h k n. rw (← read_manifest b k) (layer_list-nil b (rw (← read_index b h) at n));
  manifests_raw = λ b {d} {e} h k n. rw (← read_index b h) refl;
}

index_parser-manifest_parser_example :
    ((as_index []).index.media_type ≡ "")
    × ((as_index []).index.manifests ≡ [])
    × ((as_manifest []).manifest.layers ≡ [])
index_parser-manifest_parser_example =
    index_parser-manifest_parser decoder decoder-IsLawful [] (as_index []) (as_manifest [])
      (parsed_index (as_index []).index) (parsed_manifest (as_manifest []).manifest) refl refl
      (unfold index_parser in refl) (unfold manifest_parser in refl)

abbrev parser : ParseFunc
parser = record { run = index_parser decoder; is_struct = true; pkg_path = "" }

abbrev start : Registry
start = record { parsers = []; packages = []; targets = [] }

register_parser-get_parser_example :
    (get_parser (register_parser index_type parser start).1 index_type ≡ some parser)
    × (is_registered_package (register_parser index_type parser start).1 parser.pkg_path ≡ true)
    × ((u : String)
        → str_eq index_type u ≡ false
        → get_parser (register_parser index_type parser start).1 u ≡ get_parser start u)
    × ((u : String)
        → str_eq index_type u ≡ false
        → is_target (register_parser index_type parser start).1 u ≡ is_target start u)
register_parser-get_parser_example = register_parser-get_parser index_type parser start refl
