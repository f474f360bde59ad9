-- ===== src/Casext/Roots.antt =====
-- oci/casext/gc.go: the mark from the root set.
use umoci.Base.{
  ℕ, ◌<◌, ◌≡◌, ◌≢◌, refl, ◌∙◌, ◌⊎◌, inl, inr, Bool, String, List, [], ◌∷◌, ◌++◌, arith, length,
  Bool-cases,
}
use umoci.Base.Dict.{contains}
use umoci.Base.Errors.{GoError}
use umoci.Base.Result.{Result, ok, err, Result-cases}
use umoci.Cas.{Engine}
use umoci.Image.{Descriptor}
use umoci.Casext.Value.{Value}
use umoci.Casext.Walk.{out_of_fuel, reachable}
use umoci.Casext.Reach.{Marked, Listed, Reach}
use umoci.Casext.Marking.{IsCoherent, reachable_complete, reachable_sound}
use umoci.Casext.Fuel.{reachable_fueled}
use umoci.Casext.Sweep.{contains-append}
use umoci.Casext.Gc.{mark_roots}

module _ (E : Engine) (same : Descriptor → Descriptor → Bool) (registered : String → Bool)
    (parseable : String → Bool) (fetch : E.State → Descriptor → Result GoError Value)
    (s : E.State) where
  -- The image is coherent below each of the descriptors.
  abbrev pub RootsCoherent : List Descriptor → Type 0
  RootsCoherent ds =
      (d : Descriptor) → Listed d ds → IsCoherent same registered parseable (fetch s) d

  -- A path from one of the descriptors leads to the second argument.
  abbrev pub ReachFrom : List Descriptor → Descriptor → Type 0
  ReachFrom ds e = (d : Descriptor) × Listed d ds × Reach same registered parseable (fetch s) d e

  mark_roots-keeps :
      (fuel : ℕ) (ds : List Descriptor) (black b : List String) (x : String)
      → mark_roots E same registered parseable fetch fuel s ds black ≡ ok b
      → Marked black x
      → Marked b x
  unfolding mark_roots
  mark_roots-keeps fuel [] black b x e m = let q : black ≡ b = cc in rw (← q) m
  mark_roots-keeps fuel (d ∷ ds) black b x e m =
      elim (Result-cases (reachable same registered parseable (fetch s) fuel d)) [
        | inl (rs, q) ↦
            mark_roots-keeps fuel ds (rs ++ black) b x (rw q at e)
              (ground (arith, contains-append rs black x))
        | inr (h, q) ↦ cc
      ]

  pub mark_roots_complete :
      (fuel : ℕ) (ds : List Descriptor) (black b : List String) (e : Descriptor)
      → RootsCoherent ds
      → mark_roots E same registered parseable fetch fuel s ds black ≡ ok b
      → ReachFrom ds e
      → Marked b e.digest
  unfolding mark_roots
  mark_roots_complete fuel [] black b e c q (d, l, v) = absurd l
  mark_roots_complete fuel (r ∷ ds) black b e c q (d, l, v) =
      elim (Result-cases (reachable same registered parseable (fetch s) fuel r)) [
        | inr (h, p) ↦ cc
        | inl (rs, p) ↦ elim l [
          | inr m ↦
              mark_roots_complete fuel ds (rs ++ black) b e (λ x k. c x (inr k)) (rw p at q)
                (d, m, v)
          | inl same_root ↦ mark_roots-keeps fuel ds (rs ++ black) b e.digest (rw p at q) (
              ground (
                arith,
                contains-append rs black e.digest,
                reachable_complete same registered parseable (fetch s) r (c r (inl refl)) fuel rs e
                    p (rw same_root at v),
              ))
        ]
      ]

  pub mark_roots_sound :
      (fuel : ℕ) (ds : List Descriptor) (black b : List String) (x : String)
      → RootsCoherent ds
      → mark_roots E same registered parseable fetch fuel s ds black ≡ ok b
      → Marked b x
      → Marked black x ⊎ ((e : Descriptor) × ReachFrom ds e × (e.digest ≡ x))
  unfolding mark_roots
  mark_roots_sound fuel [] black b x c q m = let p : black ≡ b = cc in inl (rw p m)
  mark_roots_sound fuel (r ∷ ds) black b x c q m =
      elim (Result-cases (reachable same registered parseable (fetch s) fuel r)) [
        | inr (h, p) ↦ cc
        | inl (rs, p) ↦
            elim (mark_roots_sound fuel ds (rs ++ black) b x (λ y k. c y (inr k)) (rw p at q) m) [
              | inr (e, (d, l, v), w) ↦ inr (e, (d, inr l, v), w)
              | inl old ↦ elim (Bool-cases (contains rs x)) [
                | inr not_here ↦ inl (ground (arith, contains-append rs black x))
                | inl now ↦
                    let (e, v, w) =
                      reachable_sound same registered parseable (fetch s) r (c r (inl refl)) fuel rs
                        x p now in
                    inr (e, (r, inl refl, v), w)
              ]
            ]
      ]

  pub mark_roots-ne-out_of_fuel :
      (us : List String) (fuel : ℕ)
      → length us < fuel
      → (ds : List Descriptor) (black : List String) → RootsCoherent ds
      → ((e : Descriptor) → ReachFrom ds e → Marked us e.digest)
      → mark_roots E same registered parseable fetch fuel s ds black ≢ err out_of_fuel
  unfolding mark_roots
  mark_roots-ne-out_of_fuel us fuel l [] black c covers e = cc
  mark_roots-ne-out_of_fuel us fuel l (r ∷ ds) black c covers e =
      elim (Result-cases (reachable same registered parseable (fetch s) fuel r)) [
        | inr (h, p) ↦
            reachable_fueled same registered parseable (fetch s) r (c r (inl refl)) us
              (λ d v. covers d (r, inl refl, v)) fuel l (p ∙ (rw p at e))
        | inl (rs, p) ↦
            mark_roots-ne-out_of_fuel us fuel l ds (rs ++ black) (λ x k. c x (inr k))
              (λ d (x, m, v). covers d (x, inr m, v)) (rw p at e)
      ]
