-- ===== src/Casext/Reach.antt =====
-- oci/casext/walk.go: what reachable finds, against reachability as a relation.
use mathlib.Core.Path.{fun_ext}
use umoci.Base.{
  ℕ, zero, suc, ◌≡◌, refl, ◌∙◌, ap, ◌⊎◌, inl, inr, Bool, true, false, String, some, List, [], ◌∷◌,
  ◌++◌, All, arith, eq_iff, Bool-cases, if◌then◌else◌,
}
use umoci.Base.Dict.{contains}
use umoci.Base.Errors.{GoError}
use umoci.Base.Result.{Result, ok, err, ◌>>=◌}
use umoci.Image.{Descriptor}
use umoci.Casext.Value.{Value}
use umoci.Casext.Walk.{
  DescriptorPath, last, descriptor, extend, Halt, out_of_fuel, proceed, skip, walk_children, expand,
  recurse, mark_seen, reachable,
}

-- The digest is in the set.
abbrev pub Marked : List String → String → Type 0
Marked s x = contains s x ≡ true

abbrev pub Listed : Descriptor → List Descriptor → Type 0
Listed c [] = ⊥
Listed c (x ∷ xs) = (c ≡ x) ⊎ Listed c xs

pub All-Listed :
    (P : Descriptor → Type 0) (c : Descriptor) (cs : List Descriptor) → All P cs → Listed c cs → P c
All-Listed P c [] a l = absurd l
All-Listed P c (x ∷ xs) a (inl e) = rw e a.0
All-Listed P c (x ∷ xs) a (inr l) = All-Listed P c xs a.1 l

pub last-append : (w : List Descriptor) (c : Descriptor) → last (w ++ c ∷ []) ≡ some c
unfolding last
last-append [] c = refl
last-append (d ∷ []) c = refl
last-append (d ∷ e ∷ w) c = last-append (e ∷ w) c

pub contains-cons : (s : List String) (a x : String) → Marked (a ∷ s) x → (a ≡ x) ⊎ Marked s x
unfolding contains
contains-cons s a x h = ground (arith, eq_iff a x)

pub contains_self : (s : List String) (a : String) → Marked (a ∷ s) a
unfolding contains
contains_self s a = ground (arith, eq_iff a a)

pub contains_more : (s : List String) (a x : String) → Marked s x → Marked (a ∷ s) x
unfolding contains
contains_more s a x h = ground arith

pub not-Marked-nil : (x : String) → ¬ Marked [] x
unfolding contains
not-Marked-nil x h = cc h

module _ (same : Descriptor → Descriptor → Bool) (registered : String → Bool)
    (parseable : String → Bool) (fetch : Descriptor → Result GoError Value) where
  abbrev pub children : Descriptor → Result Halt (List Descriptor)
  children = expand same registered parseable fetch

  -- A descriptor path leads from the first descriptor to the second.
  pub data Reach (d : Descriptor) : Descriptor → Type 0 where
    here : Reach d d
    next :
        {e c : Descriptor} (cs : List Descriptor)
        → Reach d e
        → children e ≡ ok cs
        → Listed c cs
        → Reach d c

  mark_seen_at :
      (p : DescriptorPath) (d : Descriptor) (s : List String)
      → descriptor p ≡ some d
      → mark_seen p s ≡ (if contains s d.digest then skip s else proceed (d.digest ∷ s))
  mark_seen_at p d s h = rw (h, mark_seen)

  -- reachable without the paths.
  unfoldable pub mark : ℕ → Descriptor → List String → Result Halt (List String)
  mark zero d s = err out_of_fuel
  mark (suc fuel) d s =
      let below = λ (c : Descriptor) (t : List String). mark fuel c t in
      if contains s d.digest
      then ok s
      else (children d >>= λ cs. walk_children below cs (d.digest ∷ s))

  pub mark-new :
      (fuel : ℕ) (d : Descriptor) (s : List String)
      → contains s d.digest ≡ false
      → mark (suc fuel) d s ≡ (children d >>= λ cs. walk_children (mark fuel) cs (d.digest ∷ s))
  unfolding mark
  mark-new fuel d s new = rw new

  pub mark-enter :
      (fuel : ℕ) (d : Descriptor) (cs : List Descriptor) (s : List String)
      → contains s d.digest ≡ false
      → children d ≡ ok cs
      → mark (suc fuel) d s ≡ walk_children (mark fuel) cs (d.digest ∷ s)
  mark-enter fuel d cs s new e = mark-new fuel d s new ∙ rw e

  recurse-mark :
      (fuel : ℕ) (p : DescriptorPath) (d : Descriptor) (s : List String)
      → descriptor p ≡ some d
      → recurse same registered parseable fetch mark_seen fuel p s ≡ mark fuel d s
  unfolding recurse mark
  recurse-mark zero p d s h = refl
  recurse-mark (suc fuel) p d s h = elim (Bool-cases (contains s d.digest)) [
    | inl old ↦ rw (h, recurse) (rw (mark_seen_at p d s h, old, recurse))
    | inr new ↦
        rw (h, recurse)
          (rw (mark_seen_at p d s h, new, recurse)
            (ap
              (λ (g : Descriptor → List String → Result Halt (List String)).
                children d >>= λ cs. walk_children g cs (d.digest ∷ s))
              (fun_ext λ c. fun_ext λ t.
                recurse-mark fuel (extend p c) c t (unfold descriptor in last-append p.walk c))))
  ]

  pub reachable-mark :
      (fuel : ℕ) (d : Descriptor)
      → reachable same registered parseable fetch fuel d ≡ mark fuel d []
  unfolding reachable
  reachable-mark fuel d = recurse-mark fuel (record { walk = d ∷ [] }) d [] refl
