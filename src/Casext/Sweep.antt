-- ===== src/Casext/Sweep.antt =====
-- oci/casext/gc.go: the sweep, blob by blob.
use umoci.Base.{
  ℕ, ◌+◌, ◌≡◌, refl, ◌⊎◌, true, false, ◌||◌, String, List, [], ◌∷◌, ◌++◌, arith, eq_iff,
}
use umoci.Base.Dict.{contains}
use umoci.Base.Errors.{GoError}
use umoci.Base.Result.{Result, ok}
use umoci.Image.{Index}
use umoci.Cas.{Engine, Keeps}
use umoci.Casext.Gc.{Policy, may_delete, sweep}

pub contains-append :
    (xs ys : List String) (x : String) → contains (xs ++ ys) x ≡ (contains xs x || contains ys x)
unfolding contains
contains-append [] ys x = refl
contains-append (y ∷ xs) ys x = ground (arith, contains-append xs ys x)

module _ (E : Engine) {back : Index → Result GoError Index} (L : Keeps E back) where
  -- A blob that the mark has found, or that a policy keeps, survives the sweep.
  abbrev pub Spared : List Policy → List String → String → Type 0
  Spared ps black x = (contains black x ≡ true) ⊎ (may_delete ps x ≡ ok false)

  pub sweep-Spared :
      (ps : List Policy) (black ds : List String) (n : ℕ) (s : E.State) (x : String)
      → Spared ps black x
      → L.has (sweep E ps black ds n s).1 x ≡ L.has s x
  unfolding sweep
  sweep-Spared ps black [] n s x h = refl
  sweep-Spared ps black (d ∷ ds) n s x h = ground (
    arith,
    eq_iff d x,
    sweep-Spared ps black ds n s x h,
    sweep-Spared ps black ds (n + 1) (E.delete_blob d s).1 x h,
    L.has-delete_blob_ne d x s,
  )

  -- A blob that is gone when the sweep succeeds stays gone, and a listed one that is neither
  -- marked nor kept by a policy is gone.
  abbrev pub Swept : List Policy → List String → List String → ℕ → E.State → String → Type 0
  Swept ps black ds n s x = L.has (sweep E ps black ds n s).1 x ≡ false

  pub sweep-Swept_gone :
      (ps : List Policy) (black ds : List String) (n m : ℕ) (s : E.State) (x : String)
      → (sweep E ps black ds n s).0 ≡ ok m
      → L.has s x ≡ false
      → Swept ps black ds n s x
  unfolding sweep
  sweep-Swept_gone ps black [] n m s x e h = h
  sweep-Swept_gone ps black (d ∷ ds) n m s x e h = ground (
    arith,
    eq_iff d x,
    sweep-Swept_gone ps black ds n m s x,
    sweep-Swept_gone ps black ds (n + 1) m (E.delete_blob d s).1 x,
    L.has-delete_blob_self d s,
    L.has-delete_blob_ne d x s,
  )

  pub sweep-Swept :
      (ps : List Policy) (black ds : List String) (n m : ℕ) (s : E.State) (x : String)
      → (sweep E ps black ds n s).0 ≡ ok m
      → contains ds x ≡ true
      → contains black x ≡ false
      → may_delete ps x ≡ ok true
      → Swept ps black ds n s x
  unfolding sweep contains
  sweep-Swept ps black [] n m s x e h b k = cc
  sweep-Swept ps black (d ∷ ds) n m s x e h b k = ground (
    arith,
    eq_iff d x,
    sweep-Swept ps black ds n m s x,
    sweep-Swept ps black ds (n + 1) m (E.delete_blob d s).1 x,
    sweep-Swept_gone ps black ds (n + 1) m (E.delete_blob d s).1 x,
    L.has-delete_blob_self d s,
  )
