-- ===== src/Casext/GcLaws.antt =====
-- oci/casext/gc.go: garbage collection keeps what is reachable and removes the rest.
use umoci.Base.{
  ℕ, ◌<◌, ◌≡◌, ◌≢◌, refl, ◌∙◌, sym, ap, inl, inr, Bool, true, false, String, List, [], arith,
  length, Bool-cases,
}
use umoci.Base.Dict.{contains}
use umoci.Base.Errors.{GoError}
use umoci.Base.Result.{Result, ok, err, Result-cases}
use umoci.Cas.{Engine, Keeps}
use umoci.Image.{Descriptor, Index}
use umoci.Casext.Value.{Value}
use umoci.Casext.Walk.{Halt, failed, out_of_fuel}
use umoci.Casext.Reach.{Marked, not-Marked-nil}
use umoci.Casext.Sweep.{sweep-Spared, Swept, sweep-Swept, sweep-Swept_gone}
use umoci.Casext.Roots.{
  RootsCoherent, ReachFrom, mark_roots_complete, mark_roots_sound, mark_roots-ne-out_of_fuel,
}
use umoci.Casext.Gc.{Policy, may_delete, mark_roots, sweep, clean_up, collect, gc}

module _ (E : Engine) {back : Index → Result GoError Index} (L : Keeps E back)
    (same : Descriptor → Descriptor → Bool) (registered : String → Bool) (parseable : String → Bool)
    (fetch : E.State → Descriptor → Result GoError Value) where
  has-clean_up :
      (r : Result GoError ℕ × E.State) (x : String)
      → L.has (clean_up E same registered parseable fetch r).1 x ≡ L.has r.1 x
  has-clean_up (err e, s) x = refl
  has-clean_up (ok n, s) x = L.has-clean s x

  abbrev marked : ℕ → E.State → List Descriptor → Result Halt (List String)
  marked fuel s roots = mark_roots E same registered parseable fetch fuel s roots []

  gc_at :
      (ps : List Policy) (fuel : ℕ) (s : E.State) (index : Index)
      → E.get_index s ≡ ok index
      → gc E same registered parseable fetch ps fuel s
        ≡ collect E same registered parseable fetch ps fuel index.manifests s
  unfolding gc
  gc_at ps fuel s index read = rw (read, gc)

  collect_stopped :
      (ps : List Policy) (fuel : ℕ) (s : E.State) (roots : List Descriptor) (h : Halt)
      → marked fuel s roots ≡ err h
      → collect E same registered parseable fetch ps fuel roots s ≡ (err h, s)
  unfolding collect
  collect_stopped ps fuel s roots h q = rw (q, collect)

  collect_unlisted :
      (ps : List Policy) (fuel : ℕ) (s : E.State) (roots : List Descriptor) (b : List String)
      (e : GoError)
      → marked fuel s roots ≡ ok b
      → E.list_blobs s ≡ err e
      → collect E same registered parseable fetch ps fuel roots s ≡ (err (failed e), s)
  unfolding collect
  collect_unlisted ps fuel s roots b e q w = rw (q, collect) (rw w)

  collect_lem :
      (ps : List Policy) (fuel : ℕ) (s : E.State) (roots : List Descriptor) (b bs : List String)
      → marked fuel s roots ≡ ok b
      → E.list_blobs s ≡ ok bs
      → collect E same registered parseable fetch ps fuel roots s
        ≡ clean_up E same registered parseable fetch (sweep E ps b bs 0 s)
  unfolding collect
  collect_lem ps fuel s roots b bs q w = rw (q, collect) (rw w)

  clean_up-ok :
      (r : Result GoError ℕ × E.State)
      → (clean_up E same registered parseable fetch r).0 ≡ ok tt
      → (m : ℕ) × (r.0 ≡ ok m)
  clean_up-ok (err e, s) h = cc
  clean_up-ok (ok n, s) h = (n, refl)

  gone :
      (ps : List Policy) (b bs : List String) (s : E.State) (x : String) (m : ℕ)
      → (sweep E ps b bs 0 s).0 ≡ ok m
      → E.list_blobs s ≡ ok bs
      → contains b x ≡ false
      → may_delete ps x ≡ ok true
      → Swept E L ps b bs 0 s x
  gone ps b bs s x m done w un k = elim (Bool-cases (contains bs x)) [
    | inl there ↦ sweep-Swept E L ps b bs 0 m s x done there un k
    | inr not_there ↦
        sweep-Swept_gone E L ps b bs 0 m s x done (sym (L.contains-list_blobs s x w) ∙ not_there)
  ]

  unmarked :
      (fuel : ℕ) (s : E.State) (roots : List Descriptor) (b : List String) (x : String)
      → RootsCoherent E same registered parseable fetch s roots
      → marked fuel s roots ≡ ok b
      → ((e : Descriptor) → ReachFrom E same registered parseable fetch s roots e → e.digest ≢ x)
      → contains b x ≡ false
  unmarked fuel s roots b x c q un = elim (Bool-cases (contains b x)) [
    | inr e ↦ e
    | inl e ↦ elim (mark_roots_sound E same registered parseable fetch s fuel roots [] b x c q e) [
      | inl m ↦ absurd (not-Marked-nil x m)
      | inr (d, v, w) ↦ absurd (un d v w)
    ]
  ]

  -- Whatever GC returns, a blob with the digest of a descriptor that a path from the index leads to
  -- is in the store afterwards if and only if it was before, in a lawful store whose image is
  -- coherent below each root.
  pub gc_keeps :
      (ps : List Policy) (fuel : ℕ) (s : E.State) (index : Index) (e : Descriptor)
      → E.get_index s ≡ ok index
      → RootsCoherent E same registered parseable fetch s index.manifests
      → ReachFrom E same registered parseable fetch s index.manifests e
      → L.has (gc E same registered parseable fetch ps fuel s).1 e.digest ≡ L.has s e.digest
  gc_keeps ps fuel s index e read c v = elim (Result-cases (marked fuel s index.manifests)) [
    | inr (h, q) ↦ rw (gc_at ps fuel s index read, collect_stopped ps fuel s index.manifests h q)
    | inl (b, q) ↦ elim (Result-cases (E.list_blobs s)) [
      | inr (h, w) ↦
          rw (gc_at ps fuel s index read, collect_unlisted ps fuel s index.manifests b h q w)
      | inl (bs, w) ↦
          rw (gc_at ps fuel s index read, collect_lem ps fuel s index.manifests b bs q w)
            (has-clean_up (sweep E ps b bs 0 s) e.digest
              ∙ sweep-Spared E L ps b bs 0 s e.digest (
                  inl (
                    mark_roots_complete E same registered parseable fetch s fuel index.manifests []
                      b e c q v)))
    ]
  ]

  -- If GC succeeds, a blob is gone afterwards if no path from the index leads to a descriptor of
  -- its digest and no policy keeps it, in a lawful store whose image is coherent below each root.
  pub gc_removes :
      (ps : List Policy) (fuel : ℕ) (s : E.State) (index : Index) (x : String)
      → E.get_index s ≡ ok index
      → RootsCoherent E same registered parseable fetch s index.manifests
      → ((e : Descriptor)
          → ReachFrom E same registered parseable fetch s index.manifests e
          → e.digest ≢ x)
      → may_delete ps x ≡ ok true
      → (gc E same registered parseable fetch ps fuel s).0 ≡ ok tt
      → L.has (gc E same registered parseable fetch ps fuel s).1 x ≡ false
  gc_removes ps fuel s index x read c un k done =
      elim (Result-cases (marked fuel s index.manifests)) [
        | inr (h, q) ↦ cc (
            ap (λ (r : Result Halt (Unit {0}) × E.State). r.0)
              (gc_at ps fuel s index read ∙ collect_stopped ps fuel s index.manifests h q))
        | inl (b, q) ↦ elim (Result-cases (E.list_blobs s)) [
          | inr (h, w) ↦ cc (
              ap (λ (r : Result Halt (Unit {0}) × E.State). r.0)
                (gc_at ps fuel s index read ∙ collect_unlisted ps fuel s index.manifests b h q w))
          | inl (bs, w) ↦
              let run =
                gc_at ps fuel s index read ∙ collect_lem ps fuel s index.manifests b bs q w in
              let (m, swept) = clean_up-ok (sweep E ps b bs 0 s) (rw run at done) in
              rw run (
                has-clean_up (sweep E ps b bs 0 s) x
                ∙ gone ps b bs s x m swept w (unmarked fuel s index.manifests b x c q un) k)
        ]
      ]

  -- Of a coherent image whose reachable digests are all among `us`, GC does not run out of fuel
  -- above the number of those digests.
  pub gc_fueled :
      (ps : List Policy) (fuel : ℕ) (s : E.State) (index : Index) (us : List String)
      → E.get_index s ≡ ok index
      → RootsCoherent E same registered parseable fetch s index.manifests
      → ((e : Descriptor)
          → ReachFrom E same registered parseable fetch s index.manifests e
          → Marked us e.digest)
      → length us < fuel
      → (gc E same registered parseable fetch ps fuel s).0 ≢ err out_of_fuel
  gc_fueled ps fuel s index us read c covers l e =
      elim (Result-cases (marked fuel s index.manifests)) [
        | inr (h, q) ↦
            mark_roots-ne-out_of_fuel E same registered parseable fetch s us fuel l index.manifests
              [] c covers
              (q
                ∙ stopped h (
                    rw (gc_at ps fuel s index read, collect_stopped ps fuel s index.manifests h q)
                      at e))
        | inl (b, q) ↦ elim (Result-cases (E.list_blobs s)) [
          | inr (h, w) ↦ cc (
              ap (λ (r : Result Halt (Unit {0}) × E.State). r.0)
                (gc_at ps fuel s index read ∙ collect_unlisted ps fuel s index.manifests b h q w))
          | inl (bs, w) ↦
              clean_up-ne (sweep E ps b bs 0 s) (
                rw (gc_at ps fuel s index read, collect_lem ps fuel s index.manifests b bs q w) at
                  e)
        ]
      ]
    where
      stopped :
          (h : Halt)
          → ◌≡◌ {A = Result Halt (Unit {0})} (err h) (err out_of_fuel)
          → ◌≡◌ {A = Result Halt (List String)} (err h) (err out_of_fuel)
      stopped h e = cc

      clean_up-ne :
          (r : Result GoError ℕ × E.State)
          → (clean_up E same registered parseable fetch r).0 ≢ err out_of_fuel
      clean_up-ne (err e, s) h = cc
      clean_up-ne (ok n, s) h = ground arith
