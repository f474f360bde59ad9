-- ===== src/Casext/Walk.antt =====
-- oci/casext/walk.go: DescriptorPath, the depth-first walk, and the digests it can reach.
-- `fetch` is FromDescriptor on the image as it is, and `parseable` says whether GetParser has a
-- parser for a media type.
use umoci.Base.{ℕ, zero, suc, Bool, String, Option, none, some, List, [], ◌∷◌, ◌++◌, if◌then◌else◌}
use umoci.Base.Dict.{contains}
use umoci.Base.Errors.{GoError, is_same}
use umoci.Base.Result.{Result, ok, err, ◌>>=◌}
use umoci.Image.{Descriptor}
use umoci.Casext.Value.{Value, child_descriptors}

-- DescriptorPath
pub record DescriptorPath : Type 0 where
  pub walk : List Descriptor

-- DescriptorPath.Root; `none` is a panic.
unfoldable pub root : DescriptorPath → Option Descriptor
root p = elim p.walk [ [] ↦ none | d ∷ _ ↦ some d ]

unfoldable pub last : List Descriptor → Option Descriptor
last [] = none
last (d ∷ []) = some d
last (d ∷ e ∷ ds) = last (e ∷ ds)

-- DescriptorPath.Descriptor; `none` is a panic.
unfoldable pub descriptor : DescriptorPath → Option Descriptor
unfolding last
descriptor p = last p.walk

abbrev pub extend : DescriptorPath → Descriptor → DescriptorPath
extend p child = record { walk = p.walk ++ child ∷ [] }

-- Why a walk stops short: an error, a panic on an empty path, the end of the process in
-- childDescriptors, or (in the model only) a lack of fuel.
pub data Halt : Type 0 where
  failed : GoError → Halt
  empty_path fatal out_of_fuel : Halt

-- What a WalkFunc answers, with the state that its closure keeps: nil, ErrSkipDescriptor, or
-- another error.
pub data Visit (S : Type 0) : Type 0 where
  proceed skip : S → Visit S
  fail : GoError → Visit S

abbrev pub WalkFunc : Type 0 → Type 0
WalkFunc S = DescriptorPath → S → Visit S

-- The loop over the children.
unfoldable pub walk_children :
    {S : Type 0} → (Descriptor → S → Result Halt S) → List Descriptor → S → Result Halt S
walk_children step [] s = ok s
walk_children step (c ∷ cs) s = step c s >>= λ t. walk_children step cs t

-- The WalkFunc of reachable: each digest is gone into once.
abbrev pub mark_seen : WalkFunc (List String)
mark_seen path seen = elim (descriptor path) [
  | none ↦ skip seen
  | some d ↦ if contains seen d.digest then skip seen else proceed (d.digest ∷ seen)
]

module _ (same : Descriptor → Descriptor → Bool) (registered : String → Bool)
    (parseable : String → Bool) (fetch : Descriptor → Result GoError Value) where
  -- The children of a descriptor, as recurse finds them after the WalkFunc.
  unfoldable pub expand : Descriptor → Result Halt (List Descriptor)
  unfolding is_same
  expand d =
      if parseable d.media_type
      then elim (fetch d) [
        | err e ↦ if is_same e "unknown mediatype encountered" then ok [] else err (failed e)
        | ok v ↦ elim (child_descriptors same registered v) [ none ↦ err fatal | some cs ↦ ok cs ]
      ]
      else ok []

  module _ {S : Type 0} (walk_func : WalkFunc S) where
    -- walkState.recurse
    unfoldable pub recurse : ℕ → DescriptorPath → S → Result Halt S
    unfolding expand walk_children descriptor
    recurse zero path s = err out_of_fuel
    recurse (suc fuel) path s =
        let below = λ (c : Descriptor) (t : S). recurse fuel (extend path c) t in
        elim (descriptor path) [
          | none ↦ err empty_path
          | some d ↦ elim (walk_func path s) [
            | fail e ↦ err (failed e)
            | skip t ↦ ok t
            | proceed t ↦ expand d >>= λ cs. walk_children below cs t
          ]
        ]

    -- Walk
    unfoldable pub walk_from : ℕ → Descriptor → S → Result Halt S
    unfolding recurse
    walk_from fuel d s = recurse fuel (record { walk = d ∷ [] }) s

  -- reachable. The digests are listed in no particular order.
  unfoldable pub reachable : ℕ → Descriptor → Result Halt (List String)
  unfolding walk_from contains
  reachable fuel d = walk_from mark_seen fuel d []
