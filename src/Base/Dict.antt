-- ===== src/Base/Dict.antt =====
-- Go maps with string keys, as association lists; the order of entries means nothing.
use mathlib.Core.Path.{◌≡◌, refl}
use mathlib.Core.Bool.{Bool, true, false, ◌||◌}
use mathlib.Core.Option.{Option, none, some}
use mathlib.Core.List.{List, [], ◌∷◌}
use Prim.Native.String.{String}
use native.Mathlib.Omega.{arith}
use text.Mathlib.Text.{◌==◌}
use text.Mathlib.TextEquality.{eq_iff}
use umoci.Base.Tests.{if◌then◌else◌}

abbrev pub Dict {ℓ} : Type ℓ → Type ℓ
Dict V = List (String × V)

module _ {ℓ} {V : Type ℓ} where
  -- v, ok := m[k]
  unfoldable pub lookup : String → Dict V → Option V
  lookup key [] = none
  lookup key ((name, value) ∷ more) =
      let rest = lookup key more in if name == key then some value else rest

  -- delete(m, k)
  unfoldable pub erase : String → Dict V → Dict V
  erase key [] = []
  erase key ((name, old) ∷ more) =
      let rest = erase key more in if name == key then rest else (name, old) ∷ rest

  -- m[k] = v
  unfoldable pub insert : String → V → Dict V → Dict V
  insert key new [] = (key, new) ∷ []
  insert key new ((name, old) ∷ more) =
      let rest = insert key new more in
      if name == key then (name, new) ∷ more else (name, old) ∷ rest

  pub lookup-insert :
      (key other : String) (new : V) (more : Dict V)
      → lookup other (insert key new more) ≡ (if key == other then some new else lookup other more)
  unfolding insert lookup
  lookup-insert key other new [] = refl
  lookup-insert key other new ((name, old) ∷ more) = ground (
    arith,
    lookup-insert key other new more,
    eq_iff name key,
    eq_iff key other,
    eq_iff name other,
  )

  pub lookup-erase :
      (k j : String) (m : Dict V) → lookup j (erase k m) ≡ (if k == j then none else lookup j m)
  unfolding lookup erase
  lookup-erase k j [] = ground arith
  lookup-erase k j ((i, v) ∷ m) =
      ground (arith, lookup-erase k j m, eq_iff i k, eq_iff i j, eq_iff k j)

-- A set of strings, as a list.
unfoldable pub contains : List String → String → Bool
contains [] a = false
contains (x ∷ xs) a = x == a || contains xs a

pub eq_self : (s : String) → (s == s) ≡ true
eq_self s = (eq_iff s s).1 refl
