-- ===== src/Tests/Mutators.antt =====
-- mutate: a Mutator of an image with one layer.
use umoci.Base.{
  ◌≡◌, refl, ap, true, Bool, Option, none, some, String, List, [], ◌∷◌, Text, codes, length, map,
  str_eq, if◌then◌else◌,
}
use umoci.Base.Errors.{sentinel}
use umoci.Base.Int.{pos}
use umoci.Base.Result.{Result, ok, err, Returns}
use umoci.Image.{Descriptor, Manifest, Image}
use umoci.Cas.{Engine}
use umoci.Casext.Value.{Value, struct, nil, map_descriptors}
use umoci.Casext.Walk.{Halt}
use umoci.Mutate.Mutator.{
  Mutator, Codec, Formats, Compressor, manifest_type, source_manifest, source_config, add,
  add_existing,
}
use umoci.Mutate.Commit.{commit, rewrite_path}
use umoci.Mutate.Layers.{
  IsBalanced, SourceBalanced, Call, add_call, add_existing_call, commit_call, after_all,
  after_all-IsBalanced,
}
use umoci.Mutate.Path.{Moves, commit-Moves}

-- A store that keeps the last blob, and has no index.
abbrev last_blob : Engine
last_blob = record {
  State = Text;
  put_blob = λ b s. (ok ("new", pos (length b)), b);
  get_blob = λ d s. ok s;
  stat_blob = λ d s. ok true;
  put_index = λ i s. (err (sentinel "no index"), s);
  get_index = λ s. err (sentinel "no index");
  delete_blob = λ d s. (ok tt, []);
  list_blobs = λ s. ok ("new" ∷ []);
  clean = λ s. (ok tt, s);
}

abbrev blob : String → String → Descriptor
blob media_type digest = record {
  media_type = media_type;
  digest = digest;
  size = pos 7;
  urls = [];
  annotations = none;
  platform = none;
}

abbrev source : Manifest
source = record {
  schema_version = 2;
  media_type = manifest_type;
  config = blob "config" "c";
  layers = blob "layer" "a" ∷ [];
  annotations = none;
}

abbrev image : Image
image = record {
  created = none;
  author = "";
  architecture = "amd64";
  os = "linux";
  config = record {
    user = "";
    exposed_ports = none;
    env = none;
    entrypoint = none;
    cmd = none;
    volumes = none;
    working_dir = "";
    labels = none;
    stop_signal = "";
  };
  rootfs = record { kind = "layers"; diff_ids = some ("diff:a" ∷ []) };
  history = none;
}

abbrev to_manifest : Value → Option Manifest
to_manifest (struct pkg vs) = if str_eq pkg "manifest" then some source else none
to_manifest v = none

abbrev to_image : Value → Option Image
to_image (struct pkg vs) = if str_eq pkg "config" then some image else none
to_image v = none

abbrev codec : Codec Text
codec = record {
  fetch = λ s d.
      if str_eq d.media_type "config" then ok (struct "config" nil) else ok (struct "manifest" nil);
  as_manifest = to_manifest;
  as_image = to_image;
  encode_manifest = λ m. ok (codes "manifest");
  encode_image = λ c. ok (codes "config");
  encode_value = λ v. ok (codes "value");
}

abbrev formats : Formats
formats = record { digest_of = λ b. "diff:b"; show = λ n. "3" }

abbrev plain : Compressor
plain = record { compress = λ b. ok b; media_type_suffix = ""; bytes_read = λ b. pos (length b) }

abbrev start : Mutator
start = record {
  source = record { walk = blob "index" "i" ∷ blob manifest_type "m" ∷ [] };
  manifest = none;
  config = none;
}

abbrev manifest_or_source : Result Halt Manifest → Manifest
manifest_or_source (ok m) = m
manifest_or_source (err h) = source

abbrev image_or_none : Result Halt Image → Image
image_or_none (ok c) = c
image_or_none (err h) = image

start-SourceBalanced : SourceBalanced last_blob codec start
unfolding source_manifest source_config
start-SourceBalanced s t man c h k =
    let e : source ≡ man = ap manifest_or_source h in
    let f : image ≡ c = ap image_or_none (rw (← e) at k) in rw (← e, ← f) refl

abbrev same : Descriptor → Descriptor → Bool
same a b = str_eq a.digest b.digest

abbrev calls : List Call
calls =
    add_call plain "layer" (codes "abc") none none
    ∷ commit_call
    ∷ add_existing_call (blob "layer" "z") none "diff:z"
    ∷ []

abbrev final : Mutator
final = (after_all last_blob codec same (λ p. true) formats calls (start, [])).0

abbrev got {ℓ} : {A : Type ℓ} → A → Option A → A
got a none = a
got a (some b) = b

has_manifest : final.manifest ≡ some (got source final.manifest)
unfolding add add_existing commit rewrite_path map_descriptors
has_manifest = refl

has_config : final.config ≡ some (got image final.config)
unfolding add add_existing commit rewrite_path map_descriptors
has_config = refl

three_layers :
    map (λ (d : Descriptor). d.digest) (got source final.manifest).layers ≡ "a" ∷ "new" ∷ "z" ∷ []
unfolding add add_existing commit rewrite_path map_descriptors
three_layers = refl

after_all-IsBalanced_example : IsBalanced (got source final.manifest) (got image final.config)
after_all-IsBalanced_example =
    after_all-IsBalanced last_blob codec start start-SourceBalanced same (λ p. true) formats calls
      [] (got source final.manifest) (got image final.config) refl refl has_manifest has_config

commit-Moves_example :
    Returns
      (λ p. Moves start.source.walk p.walk)
      (commit last_blob codec same (λ p. true) start []).0
commit-Moves_example = commit-Moves last_blob codec same (λ p. true) start []
