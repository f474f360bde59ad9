-- ===== src/Casext/Gc.antt =====
-- oci/casext/gc.go: mark and sweep over the blobs of an image.
use umoci.Base.{ℕ, ◌+◌, Bool, true, false, String, List, [], ◌∷◌, ◌++◌, if◌then◌else◌}
use umoci.Base.Dict.{contains}
use umoci.Base.Errors.{GoError}
use umoci.Base.Result.{Result, ok, err, ◌>>=◌, wrap}
use umoci.Cas.{Engine}
use umoci.Image.{Descriptor}
use umoci.Casext.Value.{Value}
use umoci.Casext.Walk.{Halt, failed, reachable}

-- GCPolicy
abbrev pub Policy : Type 0
Policy = String → Result GoError Bool

-- The loop over the policies for one blob: false if one of them wants to keep it.
unfoldable pub may_delete : List Policy → Policy
may_delete [] digest = ok true
may_delete (p ∷ ps) digest = elim (p digest) [
  | err e ↦ err e
  | ok true ↦ may_delete ps digest
  | ok false ↦ ok false
]

module _ (E : Engine) where
  -- The sweep over the listed blobs; the number is that of the blobs deleted.
  unfoldable pub sweep :
      List Policy → List String → List String → ℕ → E.State → Result GoError ℕ × E.State
  unfolding may_delete
  sweep ps black [] n s = (ok n, s)
  sweep ps black (d ∷ ds) n s =
      let kept = sweep ps black ds n s in
      let gone = E.delete_blob d s in
      let next = sweep ps black ds (n + 1) gone.1 in
      if contains black d then kept else elim (may_delete ps d) [
        | err e ↦ (err e, s)
        | ok false ↦ kept
        | ok true ↦ elim gone.0 [ err e ↦ (err e, gone.1) | ok _ ↦ next ]
      ]

module _ (E : Engine) (same : Descriptor → Descriptor → Bool) (registered : String → Bool)
    (parseable : String → Bool) (fetch : E.State → Descriptor → Result GoError Value) where
  -- The loop that marks from the root set.
  unfoldable pub mark_roots :
      ℕ → E.State → List Descriptor → List String → Result Halt (List String)
  mark_roots fuel s [] black = ok black
  mark_roots fuel s (d ∷ ds) black = do
    reachables ← reachable same registered parseable (fetch s) fuel d
    mark_roots fuel s ds (reachables ++ black)

  -- The last part of GC, after the sweep.
  abbrev pub clean_up : Result GoError ℕ × E.State → Result Halt (Unit {0}) × E.State
  clean_up (err e, s) = (err (failed e), s)
  clean_up (ok n, s) = let r = E.clean s in (wrap failed r.0, r.1)

  -- GC once the root set is known.
  unfoldable pub collect :
      List Policy → ℕ → List Descriptor → E.State → Result Halt (Unit {0}) × E.State
  unfolding mark_roots sweep
  collect ps fuel roots s = elim (mark_roots fuel s roots []) [
    | err h ↦ (err h, s)
    | ok black ↦ elim (E.list_blobs s) [
      | err e ↦ (err (failed e), s)
      | ok blobs ↦ clean_up (sweep E ps black blobs 0 s)
    ]
  ]

  -- Engine.GC
  unfoldable pub gc : List Policy → ℕ → E.State → Result Halt (Unit {0}) × E.State
  unfolding collect
  gc ps fuel s = elim (E.get_index s) [
    | err e ↦ (err (failed e), s)
    | ok index ↦ collect ps fuel index.manifests s
  ]
