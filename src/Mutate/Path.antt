-- ===== src/Mutate/Path.antt =====
-- mutate/mutate.go: the path that Commit returns.
use umoci.Base.{Bool, ◌≡◌, refl, if◌then◌else◌, inl, inr, Option, none, some, String, List, [], ◌∷◌}
use umoci.Base.Int.{ℤ}
use umoci.Base.Result.{Result, ok, err, Result-cases, Returns}
use umoci.Cas.{Engine}
use umoci.Image.{Descriptor, Manifest, Image}
use umoci.Casext.Value.{map_descriptors}
use umoci.Casext.Walk.{DescriptorPath, Halt}
use umoci.Mutate.Mutator.{
  Mutator, Codec, source_config, cached_manifest, cache_config, cache, then_cached, store,
}
use umoci.Mutate.Commit.{
  moved, config_descriptor, put_json, rewrite_parent, above, rewrite_path, as_path, commit_manifest,
  commit_cached, commit,
}

-- As many descriptors, each like the one in its place but for its digest and its size.
abbrev pub Moves : List Descriptor → List Descriptor → Type 0
Moves [] [] = Unit
Moves (d ∷ ds) (e ∷ es) = ((r : String × ℤ) × (e ≡ moved d r)) × Moves ds es
Moves _ _ = ⊥

module _ (E : Engine) (D : Codec E.State) (same : Descriptor → Descriptor → Bool)
    (registered : String → Bool) where
  rewrite_parent-moved :
      (parent old new : Descriptor) (s : E.State)
      → Returns
          (λ d. (r : String × ℤ) × (d ≡ moved parent r))
          (rewrite_parent E D same registered parent old new s).0
  unfolding rewrite_parent
  rewrite_parent-moved parent old new s = elim (Result-cases (D.fetch s parent)) [
    | inr (e, q) ↦ rw (rewrite_parent, q) tt
    | inl (v, q) ↦
        elim (Result-cases
          (map_descriptors same registered (λ d t. (if same d old then new else d, t)) v tt)) [
            | inr (e, p) ↦ rw (rewrite_parent, q) (rw p tt)
            | inl (w, p) ↦
                elim (Result-cases (put_json E D same registered (D.encode_value w.0) s).0) [
                  | inr (e, o) ↦ rw (rewrite_parent, q) (rw p (rw o tt))
                  | inl (put, o) ↦ rw (rewrite_parent, q) (rw p (rw o (put, refl)))
                ]
          ]
  ]

  above-Moves :
      (parent old : Descriptor) (ds : List Descriptor) (r : Result Halt (List Descriptor) × E.State)
      → Returns (Moves (old ∷ ds)) r.0
      → Returns (Moves (parent ∷ old ∷ ds)) (above E D same registered parent old r).0
  above-Moves parent old ds (err h, s) k = tt
  above-Moves parent old ds (ok [], s) k = tt
  above-Moves parent old ds (ok (new ∷ below), s) k =
      elim (Result-cases (rewrite_parent E D same registered parent old new s).0) [
        | inr (e, q) ↦ rw (above, q) tt
        | inl (d, q) ↦ rw (above, q) (rw q at (rewrite_parent-moved parent old new s), k)
      ]

  rewrite_path-Moves :
      (ds : List Descriptor) (put : String × ℤ) (s : E.State)
      → Returns (Moves ds) (rewrite_path E D same registered ds put s).0
  unfolding rewrite_path
  rewrite_path-Moves [] put s = tt
  rewrite_path-Moves (d ∷ []) put s = ((put, refl), tt)
  rewrite_path-Moves (parent ∷ old ∷ ds) put s =
      above-Moves parent old ds (rewrite_path E D same registered (old ∷ ds) put s)
        (rewrite_path-Moves (old ∷ ds) put s)

  as_path-Moves :
      (ds : List Descriptor) (m : Mutator) (r : Result Halt (List Descriptor) × E.State)
      → Returns (Moves ds) r.0
      → Returns (λ p. Moves ds p.walk) (as_path E D same registered m r).0
  as_path-Moves ds m (err h, s) k = tt
  as_path-Moves ds m (ok es, s) k = k

  commit_manifest-Moves :
      (man : Manifest) (m : Mutator) (s : E.State)
      → Returns (λ p. Moves m.source.walk p.walk) (commit_manifest E D same registered man m s).0
  unfolding commit_manifest
  commit_manifest-Moves man m s =
      elim (Result-cases (put_json E D same registered (D.encode_manifest man) s).0) [
        | inr (e, q) ↦ rw (commit_manifest, q) tt
        | inl (put, q) ↦
            rw (commit_manifest, q)
              (as_path-Moves m.source.walk m _ (rewrite_path-Moves m.source.walk put _))
      ]

  commit_cached-Moves :
      (man : Manifest) (c : Image) (m : Mutator) (s : E.State)
      → Returns (λ p. Moves m.source.walk p.walk) (commit_cached E D same registered man c m s).0
  unfolding commit_cached
  commit_cached-Moves man c m s =
      elim (Result-cases (put_json E D same registered (D.encode_image c) s).0) [
        | inr (e, q) ↦ rw (commit_cached, q) tt
        | inl (put, q) ↦
            let man' = record man { config = config_descriptor man.config.media_type put } in
            rw (commit_cached, q) (commit_manifest-Moves man' (store E D man' c m) _)
      ]

  cache_config-source :
      (s : E.State) (man : Manifest) (w : DescriptorPath) (o : Option Manifest) (c : Option Image)
      → (cache_config E D s man (record { source = w; manifest = o; config = c })).1.source ≡ w
  cache_config-source s man w o (some c) = refl
  cache_config-source s man w o none = elim (Result-cases (source_config E D s man)) [
    | inl (c, q) ↦ rw (cache_config, q) refl
    | inr (e, q) ↦ rw (cache_config, q) refl
  ]

  cache-source : (s : E.State) (m : Mutator) → (cache E D s m).1.source ≡ m.source
  unfolding cache
  cache-source s m = elim (Result-cases (cached_manifest E D s m)) [
    | inl (man, q) ↦ rw (cache, q) (cache_config-source s man m.source (some man) m.config)
    | inr (e, q) ↦ rw (cache, q) refl
  ]

  -- A path that Commit returns is as long as the path of the source, and each of its descriptors is
  -- like the one in its place there but for its digest and its size.
  pub commit-Moves :
      (m : Mutator) (s : E.State)
      → Returns (λ p. Moves m.source.walk p.walk) (commit E D same registered m s).0
  unfolding commit then_cached
  commit-Moves m s = elim (Result-cases (cache E D s m).0) [
    | inr (e, q) ↦ rw (then_cached, q) tt
    | inl (p, q) ↦
        rw (then_cached, q)
          (rw (cache-source s m) at (commit_cached-Moves p.0 p.1 (cache E D s m).1 s))
  ]
