-- ===== src/Casext/ValueLaws.antt =====
-- oci/casext/map.go: the walk over a value meets each descriptor once, in order.
use mathlib.Core.List.{append-nil, append_assoc, map-append}
use umoci.Base.{
  Bool, true, false, ◌≡◌, refl, sym, String, some, List, [], ◌∷◌, ◌++◌, map, inl, inr, Bool-cases,
  if◌then◌else◌,
}
use umoci.Base.Result.{ok, Returns, Returns-bind}
use umoci.Image.{Descriptor}
use umoci.Casext.Value.{
  Value, invalid, leaf, null, pointer, iface, slice, array, struct, other, Values, nil, cons,
  map_leaf, map_value, map_values, map_descriptors, child_descriptors,
}

module _ (registered : String → Bool) where
  -- The descriptors in a value, outermost struct first, from left to right.
  mutual
    pub descriptors_in : Value → List Descriptor
    descriptors_in invalid = []
    descriptors_in (leaf d) = d ∷ []
    descriptors_in null = []
    descriptors_in (pointer v) = descriptors_in v
    descriptors_in (iface v) = descriptors_in v
    descriptors_in (slice vs) = descriptors_all vs
    descriptors_in (array vs) = descriptors_all vs
    descriptors_in (struct pkg vs) = if registered pkg then descriptors_all vs else []
    descriptors_in other = []

    pub descriptors_all : Values → List Descriptor
    descriptors_all nil = []
    descriptors_all (cons v vs) = descriptors_in v ++ descriptors_all vs

-- Keeps every descriptor and lists it.
abbrev collect : Descriptor → List Descriptor → Descriptor × List Descriptor
collect d children = (d, children ++ d ∷ [])

module _ (same : Descriptor → Descriptor → Bool) (registered : String → Bool)
    (same_refl : (d : Descriptor) → same d d ≡ true) where
  mutual
    unfolding map_value descriptors_in

    map_value-collect :
        (c : Bool) (v : Value) (s : List Descriptor)
        → map_value same registered collect c v s ≡ ok (v, s ++ descriptors_in registered v)
    map_value-collect c invalid s = rw append-nil
    map_value-collect c (leaf d) s = rw (same_refl d)
    map_value-collect c null s = rw append-nil
    map_value-collect c (pointer v) s = rw (map_value-collect true v s)
    map_value-collect c (iface v) s = rw (map_value-collect false v s)
    map_value-collect c (slice vs) s = rw (map_values-collect true vs s)
    map_value-collect c (array vs) s = rw (map_values-collect c vs s)
    map_value-collect c (struct pkg vs) s = elim (Bool-cases (registered pkg)) [
      | inl known ↦ rw (known) (rw (map_values-collect c vs s))
      | inr unknown ↦ rw (unknown) (rw append-nil)
    ]
    map_value-collect c other s = rw append-nil

    map_values-collect :
        (c : Bool) (vs : Values) (s : List Descriptor)
        → map_values same registered collect c vs s ≡ ok (vs, s ++ descriptors_all registered vs)
    map_values-collect c nil s = rw append-nil
    map_values-collect c (cons v vs) s =
        rw (map_value-collect c v s)
          (rw (map_values-collect c vs (s ++ descriptors_in registered v)) (rw append_assoc))

  -- childDescriptors never meets the error that ends the process, and lists the descriptors of the
  -- value in order, each as often as it occurs, where DeepEqual holds of a descriptor and itself.
  pub child_descriptors-eq :
      (v : Value) → child_descriptors same registered v ≡ some (descriptors_in registered v)
  unfolding child_descriptors
  child_descriptors-eq v = rw (map_value-collect false v [], child_descriptors)

module _ (same : Descriptor → Descriptor → Bool) (registered : String → Bool)
    (same_sound : (a b : Descriptor) → same a b ≡ true → a ≡ b) (f : Descriptor → Descriptor) where
  abbrev pure : Descriptor → Unit {0} → Descriptor × Unit {0}
  pure d s = (f d, s)

  abbrev Maps : List Descriptor → Value × Unit {0} → Type 0
  Maps ds r = descriptors_in registered r.0 ≡ map f ds

  abbrev MapsAll : List Descriptor → Values × Unit {0} → Type 0
  MapsAll ds r = descriptors_all registered r.0 ≡ map f ds

  map_leaf-Maps :
      (c : Bool) (d : Descriptor) → Returns (Maps (d ∷ [])) (map_leaf same registered pure c d tt)
  unfolding descriptors_in
  map_leaf-Maps true d = elim (Bool-cases (same (f d) d)) [
    | inl e ↦ rw e (rw (same_sound (f d) d e))
    | inr e ↦ rw e
  ]
  map_leaf-Maps false d = elim (Bool-cases (same (f d) d)) [
    | inl e ↦ rw e (rw (same_sound (f d) d e))
    | inr e ↦ rw e tt
  ]

  mutual
    unfolding map_value descriptors_in

    map_value-Maps :
        (c : Bool) (v : Value) (s : Unit {0})
        → Returns (Maps (descriptors_in registered v)) (map_value same registered pure c v s)
    map_value-Maps c invalid s = refl
    map_value-Maps c (leaf d) s = map_leaf-Maps c d
    map_value-Maps c null s = refl
    map_value-Maps c (pointer v) s =
        Returns-bind (Maps (descriptors_in registered v)) (Maps (descriptors_in registered v))
          (map_value same registered pure true v s) _ (map_value-Maps true v s) (λ r h. h)
    map_value-Maps c (iface v) s =
        Returns-bind (Maps (descriptors_in registered v)) (Maps (descriptors_in registered v))
          (map_value same registered pure false v s) _ (map_value-Maps false v s) (λ r h. h)
    map_value-Maps c (slice vs) s =
        Returns-bind (MapsAll (descriptors_all registered vs))
          (Maps (descriptors_all registered vs)) (map_values same registered pure true vs s) _
          (map_values-Maps true vs s) (λ r h. h)
    map_value-Maps c (array vs) s =
        Returns-bind (MapsAll (descriptors_all registered vs))
          (Maps (descriptors_all registered vs)) (map_values same registered pure c vs s) _
          (map_values-Maps c vs s) (λ r h. h)
    map_value-Maps c (struct pkg vs) s = elim (Bool-cases (registered pkg)) [
      | inl known ↦ rw known (
          Returns-bind (MapsAll (descriptors_all registered vs))
            (Maps (descriptors_all registered vs)) (map_values same registered pure c vs s) _
            (map_values-Maps c vs s) (λ r h. rw known h))
      | inr unknown ↦ rw unknown (rw unknown)
    ]
    map_value-Maps c other s = refl

    map_values-Maps :
        (c : Bool) (vs : Values) (s : Unit {0})
        → Returns (MapsAll (descriptors_all registered vs)) (map_values same registered pure c vs s)
    map_values-Maps c nil s = refl
    map_values-Maps c (cons v vs) s =
        Returns-bind (Maps (descriptors_in registered v))
          (MapsAll (descriptors_all registered (cons v vs))) (map_value same registered pure c v s)
          _ (map_value-Maps c v s)
          λ r h.
            Returns-bind (MapsAll (descriptors_all registered vs))
              (MapsAll (descriptors_all registered (cons v vs)))
              (map_values same registered pure c vs r.1) _ (map_values-Maps c vs r.1)
              (λ q k.
                rw (h, k)
                  (sym
                    (map-append f (descriptors_in registered v) (descriptors_all registered vs))))

  -- Where DeepEqual tells different descriptors apart, MapDescriptors with a function without
  -- effects either is refused, or gives a value whose descriptors are the images of the descriptors
  -- of the old one, in the same order.
  pub map_descriptors-descriptors_in :
      (v : Value)
      → Returns
          (λ r. descriptors_in registered r.0 ≡ map f (descriptors_in registered v))
          (map_descriptors same registered pure v tt)
  unfolding map_descriptors
  map_descriptors-descriptors_in v = map_value-Maps false v tt
