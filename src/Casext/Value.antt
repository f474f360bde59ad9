-- ===== src/Casext/Value.antt =====
-- oci/casext/map.go: the walk over a value by reflection that finds and replaces descriptors, and
-- childDescriptors of oci/casext/walk.go.
use umoci.Base.{Bool, true, false, String, Option, none, some, List, [], ◌∷◌, ◌++◌, if◌then◌else◌}
use umoci.Base.Result.{Result, ok, err, ◌>>=◌}
use umoci.Image.{Descriptor}

-- A Go value as the reflection sees it. A pointer and an interface may be nil; the elements of a
-- slice can always be set, those of an array and the fields of a struct if the whole can.
mutual
  pub data Value : Type 0 where
    invalid : Value
    leaf : Descriptor → Value
    null : Value
    pointer : Value → Value
    iface : Value → Value
    slice : Values → Value
    array : Values → Value
    struct : String → Values → Value
    other : Value

  pub data Values : Type 0 where
    nil : Values
    cons : Value → Values → Values

-- "cannot apply map function: not settable"
pub data NotSettable : Type 0 where
  not_settable : NotSettable

-- The result of a map function that keeps a state of type S.
abbrev pub Mapped : Type 0 → Type 0 → Type 0
Mapped S A = Result NotSettable (A × S)

-- `same` is reflect.DeepEqual on descriptors, and `registered` is mediatype.IsRegisteredPackage.
module _ {S : Type 0} (same : Descriptor → Descriptor → Bool) (registered : String → Bool)
    (map_func : Descriptor → S → Descriptor × S) where
  -- The branch of mapDescriptors for a descriptor.
  abbrev pub map_leaf : Bool → Descriptor → S → Mapped S Value
  map_leaf can_set old s =
      let (new, s') = map_func old s in
      if same new old
      then ok (leaf old, s')
      else if can_set
      then ok (leaf new, s')
      else err not_settable

  unfoldable mutual
    -- mapDescriptors; the flag says whether the value can be set.
    pub map_value : Bool → Value → S → Mapped S Value
    map_value can_set invalid s = ok (invalid, s)
    map_value can_set (leaf old) s = map_leaf can_set old s
    map_value can_set null s = ok (null, s)
    map_value can_set (pointer v) s = do r ← map_value true v s; ok (pointer r.0, r.1)
    map_value can_set (iface v) s = do r ← map_value false v s; ok (iface r.0, r.1)
    map_value can_set (slice vs) s = do r ← map_values true vs s; ok (slice r.0, r.1)
    map_value can_set (array vs) s = do r ← map_values can_set vs s; ok (array r.0, r.1)
    map_value can_set (struct pkg vs) s =
        let fields = (do r ← map_values can_set vs s; ok (struct pkg r.0, r.1)) in
        if registered pkg then fields else ok (struct pkg vs, s)
    map_value can_set other s = ok (other, s)

    -- The elements of a slice or an array, or the fields of a struct, in order.
    pub map_values : Bool → Values → S → Mapped S Values
    map_values can_set nil s = ok (nil, s)
    map_values can_set (cons v vs) s = do
      r ← map_value can_set v s
      q ← map_values can_set vs r.1
      ok (cons r.0 q.0, q.1)

  -- MapDescriptors: reflect.ValueOf of an interface gives a value that cannot be set.
  unfoldable pub map_descriptors : Value → S → Mapped S Value
  unfolding map_value
  map_descriptors v s = map_value false v s

-- childDescriptors; the error is a process exit in the code, and is `none` here.
unfoldable pub child_descriptors :
    (Descriptor → Descriptor → Bool) → (String → Bool) → Value → Option (List Descriptor)
unfolding map_descriptors
child_descriptors same registered v =
    elim (map_descriptors same registered (λ d children. (d, children ++ d ∷ [])) v []) [
      | ok r ↦ some r.1
      | err _ ↦ none
    ]
