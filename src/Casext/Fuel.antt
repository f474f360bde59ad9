-- ===== src/Casext/Fuel.antt =====
-- oci/casext/walk.go: the walk of reachable ends, since it goes into each digest once.
use umoci.Base.{
  ℕ, zero, suc, ◌≤◌, ◌<◌, ◌≡◌, ◌≢◌, ◌∙◌, sym, inl, inr, Bool, false, String, List, [], ◌∷◌, All,
  arith, eq_iff, length, Bool-cases, if◌then◌else◌,
}
use umoci.Base.Dict.{contains}
use umoci.Base.Errors.{GoError}
use umoci.Base.Result.{Result, err, Result-cases}
use umoci.Image.{Descriptor}
use umoci.Casext.Value.{Value}
use umoci.Casext.Walk.{Halt, out_of_fuel, walk_children, expand, reachable}
use umoci.Casext.Reach.{
  Marked, contains_more, Reach, here, children, mark, mark-new, mark-enter, reachable-mark,
}
use umoci.Casext.Marking.{IsCoherent, Marks, mark-Marks, All-Reach}

-- How many of the digests are not in the set.
unseen : List String → List String → ℕ
unseen [] s = 0
unseen (u ∷ us) s = let rest = unseen us s in if contains s u then rest else suc rest

unseen_le :
    (us s t : List String) → ((x : String) → Marked s x → Marked t x) → unseen us t ≤ unseen us s
unfolding unseen
unseen_le [] s t k = omega arith
unseen_le (u ∷ us) s t k = ground (arith, k u, unseen_le us s t k)

unseen_lt :
    (us s : List String) (x : String)
    → Marked us x
    → contains s x ≡ false
    → unseen us (x ∷ s) < unseen us s
unfolding unseen contains
unseen_lt [] s x m new = cc
unseen_lt (u ∷ us) s x m new =
    ground
      (arith, eq_iff u x, eq_iff x u, unseen_lt us s x, unseen_le us s (x ∷ s) (contains_more s x))

unseen_bound : (us : List String) → unseen us [] ≤ length us
unfolding unseen contains
unseen_bound [] = omega arith
unseen_bound (u ∷ us) = ground (arith, unseen_bound us)

module _ (same : Descriptor → Descriptor → Bool) (registered : String → Bool)
    (parseable : String → Bool) (fetch : Descriptor → Result GoError Value) (r : Descriptor) where
  children-ne-out_of_fuel :
      (d : Descriptor) → children same registered parseable fetch d ≢ err out_of_fuel
  unfolding expand
  children-ne-out_of_fuel d h = ground arith

  abbrev Step : Type 0
  Step = Descriptor → List String → Result Halt (List String)

  -- From any set with fewer unseen digests than the fuel.
  abbrev IsFueled : List String → ℕ → Step → Type 0
  IsFueled us fuel g =
      (d : Descriptor) (s : List String)
      → Reach same registered parseable fetch r d
      → unseen us s < fuel
      → g d s ≢ err out_of_fuel

  walk_children-IsFueled :
      (us : List String) (fuel : ℕ) (g : Step)
      → Marks same registered parseable fetch r g
      → IsFueled us fuel g
      → (cs : List Descriptor) (s : List String) → All (Reach same registered parseable fetch r) cs
      → unseen us s < fuel
      → walk_children g cs s ≢ err out_of_fuel
  unfolding walk_children
  walk_children-IsFueled us fuel g m h [] s v l e = cc
  walk_children-IsFueled us fuel g m h (c ∷ cs) s v l e = elim (Result-cases (g c s)) [
    | inl (t, q) ↦
        walk_children-IsFueled us fuel g m h cs t v.1
          (omega (arith, unseen_le us s t (m c s t v.0 q).0.keeps)) (rw q at e)
    | inr (x, q) ↦ h c s v.0 l (q ∙ (rw q at e))
  ]

  module _ (coherent : IsCoherent same registered parseable fetch r) (us : List String)
      (covers : (d : Descriptor)
        → Reach same registered parseable fetch r d
        → Marked us d.digest) where
    mark-IsFueled : (fuel : ℕ) → IsFueled us fuel (mark same registered parseable fetch fuel)
    mark-IsFueled zero d s v l e = omega arith
    mark-IsFueled (suc fuel) d s v l e = elim (Bool-cases (contains s d.digest)) [
      | inl old ↦ unfold mark in cc (old)
      | inr new ↦
          let step = mark-new same registered parseable fetch fuel d s new in
          elim (Result-cases (children same registered parseable fetch d)) [
            | inr (x, q) ↦ children-ne-out_of_fuel d (cc (q, rw q at (sym step ∙ e)))
            | inl (cs, q) ↦
                walk_children-IsFueled us fuel (mark same registered parseable fetch fuel)
                  (mark-Marks same registered parseable fetch r coherent fuel) (mark-IsFueled fuel)
                  cs (d.digest ∷ s) (All-Reach same registered parseable fetch r d cs v q)
                  (omega (arith, unseen_lt us s d.digest (covers d v) new))
                  (sym (mark-enter same registered parseable fetch fuel d cs s new q) ∙ e)
          ]
    ]

    -- In a coherent image where every reachable digest is one of `us`, fuel above the number of
    -- those digests is enough: the walk does not run out of it.
    pub reachable_fueled :
        (fuel : ℕ)
        → length us < fuel
        → reachable same registered parseable fetch fuel r ≢ err out_of_fuel
    reachable_fueled fuel l e =
        mark-IsFueled fuel r [] here (omega (arith, unseen_bound us))
          (sym (reachable-mark same registered parseable fetch fuel r) ∙ e)
