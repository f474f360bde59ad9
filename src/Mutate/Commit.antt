-- ===== src/Mutate/Commit.antt =====
-- mutate/mutate.go: Commit, which writes the cached blobs and the blobs above them on the path.
use umoci.Base.{Bool, none, String, List, [], ◌∷◌, Text, if◌then◌else◌}
use umoci.Base.Errors.{GoError, sentinel, wrapped}
use umoci.Base.Int.{ℤ}
use umoci.Base.Result.{Result, ok, err}
use umoci.Cas.{Engine}
use umoci.Image.{Descriptor, Manifest, Image}
use umoci.Casext.Value.{map_descriptors}
use umoci.Casext.Walk.{DescriptorPath, Halt, failed, empty_path}
use umoci.Mutate.Mutator.{Mutator, Codec, Run, then_cached, store}

-- The descriptor of a blob that was written again.
abbrev pub moved : Descriptor → String × ℤ → Descriptor
moved d r = record d { digest = r.0; size = r.1 }

-- The descriptor that Commit puts into the manifest for the configuration.
abbrev pub config_descriptor : String → String × ℤ → Descriptor
config_descriptor media_type r = record {
  media_type = media_type;
  digest = r.0;
  size = r.1;
  urls = [];
  annotations = none;
  platform = none;
}

module _ (E : Engine) (D : Codec E.State) (same : Descriptor → Descriptor → Bool)
    (registered : String → Bool) where
  -- PutBlobJSON, once the value is encoded.
  abbrev pub put_json : Result GoError Text → E.State → Result GoError (String × ℤ) × E.State
  put_json (err e) s = (err (wrapped "encode JSON" e), s)
  put_json (ok bytes) s = E.put_blob bytes s

  -- One step up the path: the blob of the parent, with the child replaced, is written.
  unfoldable pub rewrite_parent :
      Descriptor → Descriptor → Descriptor → E.State → Result Halt Descriptor × E.State
  rewrite_parent parent old new s = elim (D.fetch s parent) [
    | err e ↦ (err (failed (wrapped "get parent blob" e)), s)
    | ok v ↦
        elim (map_descriptors same registered (λ d t. (if same d old then new else d, t)) v tt) [
          | err _ ↦ (err (failed (sentinel "cannot apply map function: not settable")), s)
          | ok w ↦
              let r = put_json (D.encode_value w.0) s in
              elim r.0 [
                | err e ↦ (err (failed (wrapped "put json parent blob" e)), r.1)
                | ok put ↦ (ok (moved parent put), r.1)
              ]
        ]
  ]

  -- The parent above a path that was written again.
  abbrev pub above :
      Descriptor
      → Descriptor
      → Result Halt (List Descriptor) × E.State
      → Result Halt (List Descriptor) × E.State
  above parent old (err h, s) = (err h, s)
  above parent old (ok [], s) = (err empty_path, s)
  above parent old (ok (new ∷ below), s) =
      let r = rewrite_parent parent old new s in
      elim r.0 [ err h ↦ (err h, r.1) | ok d ↦ (ok (d ∷ new ∷ below), r.1) ]

  -- The path from its end up to its root.
  unfoldable pub rewrite_path :
      List Descriptor → String × ℤ → E.State → Result Halt (List Descriptor) × E.State
  unfolding rewrite_parent
  rewrite_path [] put s = (err empty_path, s)
  rewrite_path (d ∷ []) put s = (ok (moved d put ∷ []), s)
  rewrite_path (parent ∷ old ∷ ds) put s = above parent old (rewrite_path (old ∷ ds) put s)

  abbrev pub as_path : Mutator → Result Halt (List Descriptor) × E.State → Run E D DescriptorPath
  as_path m (err h, s) = (err h, (m, s))
  as_path m (ok ds, s) = (ok (record { walk = ds }), (m, s))

  -- Commit once the configuration is written.
  unfoldable pub commit_manifest : Manifest → Mutator → E.State → Run E D DescriptorPath
  unfolding rewrite_path
  commit_manifest man m s =
      let r = put_json (D.encode_manifest man) s in
      elim r.0 [
        | err e ↦ (err (failed (wrapped "commit mutated manifest blob" e)), (m, r.1))
        | ok put ↦ as_path m (rewrite_path m.source.walk put r.1)
      ]

  -- Commit, with what is cached.
  unfoldable pub commit_cached : Manifest → Image → Mutator → E.State → Run E D DescriptorPath
  unfolding commit_manifest
  commit_cached man c m s =
      let r = put_json (D.encode_image c) s in
      elim r.0 [
        | err e ↦ (err (failed (wrapped "commit mutated config blob" e)), (m, r.1))
        | ok put ↦
            let man' = record man { config = config_descriptor man.config.media_type put } in
            commit_manifest man' (store E D man' c m) r.1
      ]

  -- Commit
  unfoldable pub commit : Mutator → E.State → Run E D DescriptorPath
  unfolding commit_cached then_cached
  commit = then_cached E D commit_cached
