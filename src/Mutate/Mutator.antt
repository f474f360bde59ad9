-- ===== src/Mutate/Mutator.antt =====
-- mutate/mutate.go: the Mutator, its cache, and the operations that change the cached manifest and
-- configuration. The JSON encoding, FromDescriptor and the compressors are parameters.
use umoci.Base.{
  ℕ, Bool, true, false, Option, none, some, String, List, [], ◌∷◌, ◌++◌, Text, str_eq,
  if◌then◌else◌,
}
use Prim.Native.String.{◌++◌ as str_append}
use umoci.Base.Dict.{Dict, insert}
use umoci.Base.Errors.{GoError, sentinel, wrapped}
use umoci.Base.Int.{ℤ, pos, negsuc}
use umoci.Base.Result.{Result, ok, err}
use umoci.Cas.{Engine}
use umoci.Image.{Descriptor, Manifest, Image, ImageConfig, History}
use umoci.Casext.Value.{Value}
use umoci.Casext.Walk.{DescriptorPath, descriptor, Halt, failed, empty_path}
use umoci.Config.Setters.{append_one}

-- Mutator, but for its engine.
pub record Mutator : Type 0 where
  pub source : DescriptorPath
  pub manifest : Option Manifest
  pub config : Option Image

-- Meta
pub record Meta : Type 0 where
  pub created : ℕ
  pub author : String
  pub architecture : String
  pub os : String

-- FromDescriptor on a store, the type assertions on its result, and the JSON encoding.
pub record Codec (S : Type 0) : Type 0 where
  pub fetch : S → Descriptor → Result GoError Value
  pub as_manifest : Value → Option Manifest
  pub as_image : Value → Option Image
  pub encode_manifest : Manifest → Result GoError Text
  pub encode_image : Image → Result GoError Text
  pub encode_value : Value → Result GoError Text

-- Compressor: what it makes of a stream, and how many bytes it has read then.
pub record Compressor : Type 0 where
  pub compress : Text → Result GoError Text
  pub media_type_suffix : String
  pub bytes_read : Text → ℤ

-- cas.BlobAlgorithm.Digester, and fmt.Sprintf("%d") of a number that is not negative.
pub record Formats : Type 0 where
  pub digest_of : Text → String
  pub show : ℕ → String

-- ispec.MediaTypeImageManifest
abbrev pub manifest_type : String
manifest_type = "application/vnd.oci.image.manifest.v1+json"

-- New; the first error is a panic.
unfoldable pub new : DescriptorPath → Result Halt Mutator
unfolding descriptor
new src = elim (descriptor src) [
  | none ↦ err empty_path
  | some d ↦
      if str_eq d.media_type manifest_type
      then ok (record { source = src; manifest = none; config = none })
      else err (failed (sentinel "unsupported source type"))
]

-- The history after an entry is appended, if there is one.
abbrev pub append_history : Bool → Option History → Option (List History) → Option (List History)
append_history empty none hs = hs
append_history empty (some h) hs = some (append_one hs (record h { empty_layer = empty }))

-- appendToConfig
unfoldable pub append_to_config : Option History → String → Image → Image
append_to_config history diff_id c = record c {
  rootfs = record c.rootfs { diff_ids = some (append_one c.rootfs.diff_ids diff_id) };
  history = append_history false history c.history;
}

-- ci.umo.uncompressed_blob_size
abbrev pub size_annotation : String
size_annotation = "ci.umo.uncompressed_blob_size"

-- The media type and the annotations that Add gives to a layer.
abbrev pub compressed_type : String → String → String
compressed_type media_type suffix =
    if str_eq suffix "" then media_type else str_append media_type (str_append "+" suffix)

abbrev pub size_noted : (ℕ → String) → ℤ → Option (Dict String) → Dict String
size_noted show (pos n) none = insert size_annotation (show n) []
size_noted show (pos n) (some m) = insert size_annotation (show n) m
size_noted show (negsuc n) none = []
size_noted show (negsuc n) (some m) = m

module _ (E : Engine) (D : Codec E.State) where
  -- The result, with the Mutator and the store as they are then.
  abbrev pub Run : Type 0 → Type 0
  Run A = Result Halt A × (Mutator × E.State)

  unfoldable pub source_manifest : E.State → Mutator → Result Halt Manifest
  unfolding descriptor
  source_manifest s m = elim (descriptor m.source) [
    | none ↦ err empty_path
    | some d ↦ elim (D.fetch s d) [
      | err e ↦ err (failed (wrapped "cache source manifest" e))
      | ok v ↦ elim (D.as_manifest v) [
        | none ↦ err (failed (sentinel "unknown manifest blob type"))
        | some x ↦ ok x
      ]
    ]
  ]

  unfoldable pub source_config : E.State → Manifest → Result Halt Image
  source_config s man = elim (D.fetch s man.config) [
    | err e ↦ err (failed (wrapped "cache source config" e))
    | ok v ↦ elim (D.as_image v) [
      | none ↦ err (failed (sentinel "unknown config blob type"))
      | some c ↦ ok c
    ]
  ]

  -- The two halves of cache.
  abbrev pub cached_manifest : E.State → Mutator → Result Halt Manifest
  cached_manifest s m = elim m.manifest [ some x ↦ ok x | none ↦ source_manifest s m ]

  abbrev pub cache_config : E.State → Manifest → Mutator → Result Halt (Manifest × Image) × Mutator
  cache_config s man m = elim m.config [
    | some c ↦ (ok (man, c), m)
    | none ↦ elim (source_config s man) [
      | err e ↦ (err e, m)
      | ok c ↦ (ok (man, c), record m { config = some c })
    ]
  ]

  -- cache, with what it has cached.
  unfoldable pub cache : E.State → Mutator → Result Halt (Manifest × Image) × Mutator
  unfolding source_manifest source_config
  cache s m = elim (cached_manifest s m) [
    | err e ↦ (err e, m)
    | ok man ↦ cache_config s man (record m { manifest = some man })
  ]

  -- An operation that begins with cache.
  unfoldable pub then_cached :
      {A : Type 0} → (Manifest → Image → Mutator → E.State → Run A) → Mutator → E.State → Run A
  unfolding cache
  then_cached k m s =
      let r = cache s m in elim r.0 [ err e ↦ (err e, (r.1, s)) | ok p ↦ k p.0 p.1 r.1 s ]

  abbrev pub store : Manifest → Image → Mutator → Mutator
  store man c m = record m { manifest = some man; config = some c }

  -- Config, Manifest, Meta and Annotations.
  unfoldable pub current_config : Mutator → E.State → Run Image
  unfolding then_cached
  current_config = then_cached λ man c m s. (ok c, (m, s))

  unfoldable pub current_manifest : Mutator → E.State → Run Manifest
  unfolding then_cached
  current_manifest = then_cached λ man c m s. (ok man, (m, s))

  unfoldable pub current_meta : Mutator → E.State → Run Meta
  unfolding then_cached
  current_meta = then_cached λ man c m s.
      let created : ℕ = elim c.created [ none ↦ 0 | some t ↦ t ] in
      (
        ok (record {
          created = created;
          author = c.author;
          architecture = c.architecture;
          os = c.os;
        }),
        (m, s),
      )

  unfoldable pub current_annotations : Mutator → E.State → Run (Dict String)
  unfolding then_cached
  current_annotations =
      then_cached
        λ man c m s. (elim man.annotations [ none ↦ ok [] | some notes ↦ ok notes ], (m, s))

  -- Set, with what is cached.
  abbrev pub set_cached :
      ImageConfig
      → Meta
      → Option (Dict String)
      → Option History
      → Manifest
      → Image
      → Mutator
      → E.State
      → Run (Unit {0})
  set_cached config meta annotations history man c m s =
      let c' = record c {
        config = config;
        created = some meta.created;
        author = meta.author;
        architecture = meta.architecture;
        os = meta.os;
        history = append_history true history c.history;
      } in
      (
        ok tt,
        (store (record man { media_type = manifest_type; annotations = annotations }) c' m, s),
      )

  -- Set
  unfoldable pub set :
      ImageConfig
      → Meta
      → Option (Dict String)
      → Option History
      → Mutator
      → E.State
      → Run (Unit {0})
  unfolding then_cached
  set config meta annotations history = then_cached (set_cached config meta annotations history)

  -- AddExisting, with what is cached.
  unfoldable pub add_existing_cached :
      Descriptor → Option History → String → Manifest → Image → Mutator → E.State → Run (Unit {0})
  unfolding append_to_config
  add_existing_cached desc history diff_id man c m s = (
    ok tt,
    (
      store (record man { layers = man.layers ++ desc ∷ [] }) (append_to_config history diff_id c)
          m,
      s,
    ),
  )

  -- AddExisting
  unfoldable pub add_existing :
      Descriptor → Option History → String → Mutator → E.State → Run (Unit {0})
  unfolding then_cached add_existing_cached
  add_existing desc history diff_id = then_cached (add_existing_cached desc history diff_id)

  module _ (F : Formats) (z : Compressor) where
    -- The layer's descriptor in Add.
    abbrev pub layer_descriptor : String → Text → Option (Dict String) → String × ℤ → Descriptor
    layer_descriptor media_type bytes annotations r = record {
      media_type = compressed_type media_type z.media_type_suffix;
      digest = r.0;
      size = r.1;
      urls = [];
      annotations = some (size_noted F.show (z.bytes_read bytes) annotations);
      platform = none;
    }

    -- Add once the layer is in the store.
    unfoldable pub add_layer :
        Descriptor → Text → Option History → Manifest → Image → Mutator → Mutator
    unfolding append_to_config
    add_layer desc bytes history man c m =
        store (record man { layers = man.layers ++ desc ∷ [] })
          (append_to_config history (F.digest_of bytes) c) m

    -- Add and add, with what is cached.
    unfoldable pub add_cached :
        String
        → Text
        → Option History
        → Option (Dict String)
        → Manifest
        → Image
        → Mutator
        → E.State
        → Run Descriptor
    unfolding add_layer
    add_cached media_type bytes history annotations man c m s = elim (z.compress bytes) [
      | err e ↦ (err (failed (wrapped "add layer" e)), (m, s))
      | ok packed ↦
          let r = E.put_blob packed s in
          let desc = λ (put : String × ℤ). layer_descriptor media_type bytes annotations put in
          elim r.0 [
            | err e ↦ (err (failed (wrapped "add layer" e)), (m, r.1))
            | ok put ↦ (ok (desc put), (add_layer (desc put) bytes history man c m, r.1))
          ]
    ]

    -- Add
    unfoldable pub add :
        String → Text → Option History → Option (Dict String) → Mutator → E.State → Run Descriptor
    unfolding then_cached add_cached
    add media_type bytes history annotations =
        then_cached (add_cached media_type bytes history annotations)
