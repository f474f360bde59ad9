-- ===== src/Mutate/Layers.antt =====
-- mutate/mutate.go: a Mutator keeps as many layers as diff ids.
use umoci.Base.{
  ℕ, suc, Bool, ◌≡◌, refl, ◌∙◌, inl, inr, Option, none, some, String, List, [], ◌∷◌, ◌++◌, Text,
  length, length-append, arith,
}
use umoci.Base.Dict.{Dict}
use umoci.Base.Result.{Result, ok, err, Result-cases, Returns}
use umoci.Cas.{Engine}
use umoci.Image.{Descriptor, Manifest, Image, ImageConfig, History}
use umoci.Casext.Walk.{DescriptorPath, Halt}
use umoci.Config.Setters.{append_one}
use umoci.Mutate.Mutator.{
  Mutator, Meta, Codec, Formats, Compressor, Run, append_to_config, source_manifest, source_config,
  cached_manifest, cache_config, cache, then_cached, set_cached, set, add_existing_cached,
  add_existing, layer_descriptor, add_layer, add_cached, add,
}
use umoci.Mutate.Commit.{put_json, as_path, commit_manifest, commit_cached, commit}

abbrev pub diff_count : Image → ℕ
diff_count c = elim c.rootfs.diff_ids [ none ↦ 0 | some ds ↦ length ds ]

-- As many layers as diff ids.
abbrev pub IsBalanced : Manifest → Image → Type 0
IsBalanced man c = length man.layers ≡ diff_count c

length-append_one {ℓ} :
    {A : Type ℓ} (o : Option (List A)) (x : A)
    → length (append_one o x) ≡ suc (elim o [ none ↦ 0 | some xs ↦ length xs ])
length-append_one none x = refl
length-append_one (some xs) x = omega (arith, length-append xs (x ∷ []))

append-IsBalanced :
    (man : Manifest) (c : Image) (d : Descriptor) (history : Option History) (diff_id : String)
    → IsBalanced man c
    → IsBalanced (record man { layers = man.layers ++ d ∷ [] }) (append_to_config history diff_id c)
unfolding append_to_config
append-IsBalanced man c d history diff_id h =
    length-append man.layers (d ∷ [])
    ∙ omega (arith, h, length-append_one c.rootfs.diff_ids diff_id)

-- A call of an operation of a Mutator.
pub data Call : Type 0 where
  set_call : ImageConfig → Meta → Option (Dict String) → Option History → Call
  add_call : Compressor → String → Text → Option History → Option (Dict String) → Call
  add_existing_call : Descriptor → Option History → String → Call
  commit_call : Call

module _ (E : Engine) (D : Codec E.State) (same : Descriptor → Descriptor → Bool)
    (registered : String → Bool) (F : Formats) where
  -- The Mutator and the store after a call, whatever it returns.
  abbrev pub after : Call → Mutator × E.State → Mutator × E.State
  after (set_call config meta notes h) (m, s) = (set E D config meta notes h m s).1
  after (add_call z t bytes h notes) (m, s) = (add E D F z t bytes h notes m s).1
  after (add_existing_call d h diff_id) (m, s) = (add_existing E D d h diff_id m s).1
  after commit_call (m, s) = (commit E D same registered m s).1

  abbrev pub after_all : List Call → Mutator × E.State → Mutator × E.State
  after_all [] p = p
  after_all (c ∷ cs) p = after_all cs (after c p)

module _ (E : Engine) (D : Codec E.State) (src : Mutator) where
  -- What FromDescriptor gives for the source has as many layers as diff ids, whatever the stores.
  abbrev pub SourceBalanced : Type 0
  SourceBalanced =
      (s t : E.State) (man : Manifest) (c : Image)
      → source_manifest E D s src ≡ ok man
      → source_config E D t man ≡ ok c
      → IsBalanced man c

  -- What is cached is balanced, or has come from the source.
  abbrev Consistent : Option Manifest → Option Image → Type 0
  Consistent none none = Unit
  Consistent none (some c) = ⊥
  Consistent (some man) none = (s : E.State) × (source_manifest E D s src ≡ ok man)
  Consistent (some man) (some c) = IsBalanced man c

  pub record IsGood (m : Mutator) : Type 0 where
    pub same_source : m.source ≡ src.source
    pub consistent : Consistent m.manifest m.config

  source_manifest-eq :
      (s : E.State) (m : Mutator)
      → m.source ≡ src.source
      → source_manifest E D s m ≡ source_manifest E D s src
  unfolding source_manifest
  source_manifest-eq s m h = rw h refl

  -- What cache leaves and gives.
  record Cached (r : Result Halt (Manifest × Image) × Mutator) : Type 0 where
    good : IsGood r.1
    balanced : Returns (λ p. IsBalanced p.0 p.1) r.0

  module _ (H : SourceBalanced) where
    cache_config-Cached :
        (s t : E.State) (w : DescriptorPath) (man : Manifest)
        → w ≡ src.source
        → source_manifest E D t src ≡ ok man
        → Cached
            (cache_config E D s man (record { source = w; manifest = some man; config = none }))
    cache_config-Cached s t w man e from = elim (Result-cases (source_config E D s man)) [
      | inl (c, q) ↦
          rw (cache_config, q)
            (record {
              good = record { same_source = e; consistent = H t s man c from q };
              balanced = H t s man c from q;
            })
      | inr (x, q) ↦
          rw (cache_config, q)
            (record { good = record { same_source = e; consistent = (t, from) }; balanced = tt })
    ]

    cache-Cached :
        (s : E.State) (w : DescriptorPath) (o : Option Manifest) (p : Option Image)
        → w ≡ src.source
        → Consistent o p
        → Cached (cache E D s (record { source = w; manifest = o; config = p }))
    unfolding cache
    cache-Cached s w (some man) (some c) e h = record {
      good = record { same_source = e; consistent = h };
      balanced = h;
    }
    cache-Cached s w (some man) none e h = cache_config-Cached s h.0 w man e h.1
    cache-Cached s w none (some c) e h = absurd h
    cache-Cached s w none none e h =
        let eq = source_manifest-eq s (record { source = w; manifest = none; config = none }) e in
        elim (Result-cases (source_manifest E D s src)) [
          | inl (man, q) ↦ rw (cache, cached_manifest, eq, q) (cache_config-Cached s s w man e q)
          | inr (x, q) ↦
              rw (cache, cached_manifest, eq, q)
                (record { good = record { same_source = e; consistent = tt }; balanced = tt })
        ]

    -- An operation that keeps a balanced Mutator good keeps any good one good.
    then_cached-IsGood :
        {A : Type 0} (k : Manifest → Image → Mutator → E.State → Run E D A) (m : Mutator)
        (s : E.State)
        → ((man : Manifest) (c : Image) (n : Mutator)
            → IsBalanced man c
            → IsGood n
            → IsGood (k man c n s).1.0)
        → IsGood m
        → IsGood (then_cached E D k m s).1.0
    unfolding then_cached
    then_cached-IsGood k m s keeps g =
        let r = cache-Cached s m.source m.manifest m.config g.same_source g.consistent in
        elim (Result-cases (cache E D s m).0) [
          | inl (p, q) ↦
              rw (then_cached, q) (keeps p.0 p.1 (cache E D s m).1 (rw q at r.balanced) r.good)
          | inr (x, q) ↦ rw (then_cached, q) r.good
        ]

    add_cached-IsGood :
        (F : Formats) (z : Compressor) (t : String) (bytes : Text) (h : Option History)
        (notes : Option (Dict String)) (man : Manifest) (c : Image) (m : Mutator) (s : E.State)
        → IsBalanced man c
        → IsGood m
        → IsGood (add_cached E D F z t bytes h notes man c m s).1.0
    unfolding add_layer add_cached
    add_cached-IsGood F z t bytes h notes man c m s b g = elim (Result-cases (z.compress bytes)) [
      | inr (e, q) ↦ rw (add_cached, q) g
      | inl (packed, q) ↦ elim (Result-cases (E.put_blob packed s).0) [
        | inr (e, p) ↦ rw (add_cached, q) (rw p g)
        | inl (put, p) ↦
            rw (add_cached, q)
              (rw p (record {
                same_source = g.same_source;
                consistent =
                    append-IsBalanced man c (layer_descriptor E D F z t bytes notes put) h
                      (F.digest_of bytes) b;
              }))
      ]
    ]

    module _ (same : Descriptor → Descriptor → Bool) (registered : String → Bool) where
      as_path-same :
          (m : Mutator) (r : Result Halt (List Descriptor) × E.State)
          → (as_path E D same registered m r).1.0 ≡ m
      as_path-same m (err h, s) = refl
      as_path-same m (ok ds, s) = refl

      commit_manifest-same :
          (man : Manifest) (m : Mutator) (s : E.State)
          → (commit_manifest E D same registered man m s).1.0 ≡ m
      unfolding commit_manifest
      commit_manifest-same man m s =
          elim (Result-cases (put_json E D same registered (D.encode_manifest man) s).0) [
            | inr (e, q) ↦ rw (commit_manifest, q) refl
            | inl (put, q) ↦ rw (commit_manifest, q) (as_path-same m _)
          ]

      commit_cached-IsGood :
          (man : Manifest) (c : Image) (m : Mutator) (s : E.State)
          → IsBalanced man c
          → IsGood m
          → IsGood (commit_cached E D same registered man c m s).1.0
      unfolding commit_cached
      commit_cached-IsGood man c m s b g =
          elim (Result-cases (put_json E D same registered (D.encode_image c) s).0) [
            | inr (e, q) ↦ rw (commit_cached, q) g
            | inl (put, q) ↦
                rw (commit_cached, q)
                  (rw (commit_manifest-same)
                    (record { same_source = g.same_source; consistent = b }))
          ]

    module _ (same : Descriptor → Descriptor → Bool) (registered : String → Bool)
        (F : Formats) where
      after-IsGood :
          (c : Call) (m : Mutator) (s : E.State)
          → IsGood m
          → IsGood (after E D same registered F c (m, s)).0
      unfolding set add_existing add commit
      after-IsGood (set_call config meta notes h) m s g =
          then_cached-IsGood (set_cached E D config meta notes h) m s
            (λ man c n b k. record { same_source = k.same_source; consistent = b }) g
      after-IsGood (add_existing_call d h diff_id) m s g =
          then_cached-IsGood (add_existing_cached E D d h diff_id) m s
            (λ man c n b k. record {
              same_source = k.same_source;
              consistent = append-IsBalanced man c d h diff_id b;
            })
            g
      after-IsGood (add_call z t bytes h notes) m s g =
          then_cached-IsGood (add_cached E D F z t bytes h notes) m s
            (λ man c n b k. add_cached-IsGood F z t bytes h notes man c n s b k) g
      after-IsGood commit_call m s g =
          then_cached-IsGood (commit_cached E D same registered) m s
            (λ man c n b k. commit_cached-IsGood same registered man c n s b k) g

      after_all-IsGood :
          (cs : List Call) (m : Mutator) (s : E.State)
          → IsGood m
          → IsGood (after_all E D same registered F cs (m, s)).0
      after_all-IsGood [] m s g = g
      after_all-IsGood (c ∷ cs) m s g =
          let p = after E D same registered F c (m, s) in
          after_all-IsGood cs p.0 p.1 (after-IsGood c m s g)

      -- Where the manifest and the configuration of the source have as many layers as diff ids, a new
      -- Mutator that has gone through any calls of Set, Add, AddExisting and Commit, failed ones
      -- included, has as many layers as diff ids in what it caches.
      pub after_all-IsBalanced :
          (cs : List Call) (s : E.State) (man : Manifest) (c : Image)
          → src.manifest ≡ none
          → src.config ≡ none
          → (after_all E D same registered F cs (src, s)).0.manifest ≡ some man
          → (after_all E D same registered F cs (src, s)).0.config ≡ some c
          → IsBalanced man c
      after_all-IsBalanced cs s man c no_man no_config em ec =
          let start : IsGood src = record {
            same_source = refl;
            consistent = rw (no_man, no_config) tt;
          } in
          rw (em, ec) at (after_all-IsGood cs src s start).consistent
