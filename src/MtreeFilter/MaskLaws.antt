-- ===== src/MtreeFilter/MaskLaws.antt =====
-- pkg/mtreefilter/mask.go: which deltas the filters let through.
use umoci.Base.{
  ◌≡◌, refl, ◌↔◌, ◌⊎◌, inl, inr, true, false, not, ◌&&◌, ◌||◌, List, [], ◌∷◌, Text, arith,
  Bool-cases,
}
use umoci.MtreeFilter.Mask.{
  RootedPath, make_root, is_masked, ancestors_free, mask_filter, make_roots, masking,
}

-- The first path is the second one or below it.
pub data Below (q : RootedPath) : RootedPath → Type 0 where
  itself : Below q q
  inside : {p : RootedPath} (c : Text) → Below q p → Below q (c ∷ p)

-- The path, which is not the root, is masked.
abbrev pub Masks : List RootedPath → RootedPath → Type 0
Masks ms [] = ⊥
Masks ms (c ∷ p) = is_masked ms (c ∷ p) ≡ true

free_up :
    (ms : List RootedPath) (c : Text) (up : RootedPath)
    → ancestors_free ms (c ∷ up) ≡ true
    → ancestors_free ms up ≡ true
unfolding ancestors_free
free_up ms c up h = ground arith

free-Masks :
    (ms : List RootedPath) {q p : RootedPath}
    → ancestors_free ms p ≡ true
    → Below q p
    → Masks ms q
    → ⊥
unfolding ancestors_free
free-Masks ms {p = []} h itself m = m
free-Masks ms {p = c ∷ up} h itself m = ground (arith, h, m)
free-Masks ms {p = c ∷ up} h (inside d b) m = free-Masks ms (free_up ms c up h) b m

masked_or_free :
    (ms : List RootedPath) (p : RootedPath)
    → (ancestors_free ms p ≡ true) ⊎ ((q : RootedPath) × Below q p × Masks ms q)
unfolding ancestors_free
masked_or_free ms [] = inl refl
masked_or_free ms (c ∷ up) = elim (Bool-cases (is_masked ms (c ∷ up))) [
  | inl m ↦ inr (c ∷ up, itself, m)
  | inr n ↦ elim (masked_or_free ms up) [
    | inl h ↦ inl (rw (n, h) refl)
    | inr (q, b, m) ↦ inr (q, inside c b, m)
  ]
]

mask_filter_self :
    (ms : List RootedPath) (path : Text)
    → mask_filter ms true path ≡ ancestors_free ms (make_root path)
unfolding mask_filter
mask_filter_self ms path = go (make_root path)
  where
    go :
        (p : RootedPath)
        → (elim p [
          | [] ↦ true
          | c ∷ up ↦ (not (is_masked ms (c ∷ up)) || not true) && ancestors_free ms up
        ])
          ≡ ancestors_free ms p
    go [] = refl
    go (c ∷ up) = ground arith

-- MaskFilter stops a path exactly when the path, made rooted and clean, or a path above it other
-- than the root, is one of the masks, made rooted and clean; so the mask "/" stops none.
pub masking_iff :
    (masks : List Text) (path : Text)
    → (masking masks path ≡ false)
      ↔ ((q : RootedPath) × Below q (make_root path) × Masks (make_roots masks) q)
unfolding masking
masking_iff masks path = (stopped, free)
  where
    stopped :
        masking masks path ≡ false
        → (q : RootedPath) × Below q (make_root path) × Masks (make_roots masks) q
    stopped h = elim (masked_or_free (make_roots masks) (make_root path)) [
      | inr found ↦ found
      | inl e ↦ cc (h, e, mask_filter_self (make_roots masks) path)
    ]

    free :
        ((q : RootedPath) × Below q (make_root path) × Masks (make_roots masks) q)
        → masking masks path ≡ false
    free (q, b, m) = elim (Bool-cases (masking masks path)) [
      | inr h ↦ h
      | inl h ↦
          absurd
            (free-Masks (make_roots masks) (rw (mask_filter_self (make_roots masks) path) at h) b m)
    ]
