-- ===== src/Tests/Masks.antt =====
-- pkg/mtreefilter: a mask over three deltas.
use umoci.Base.{◌≡◌, refl, ◌↔◌, true, false, List, [], ◌∷◌, Text, codes}
use umoci.MtreeFilter.Mask.{
  RootedPath, make_root, make_roots, masking, InodeDelta, simplifying, filter_deltas,
}
use umoci.MtreeFilter.MaskLaws.{Below, Masks, masking_iff}

abbrev masks : List Text
masks = codes "var/./log/" ∷ []

masking_iff_example :
    (masking masks (codes "/var/log/x") ≡ false)
    ↔ ((q : RootedPath) × Below q (make_root (codes "/var/log/x")) × Masks (make_roots masks) q)
masking_iff_example = masking_iff masks (codes "/var/log/x")

abbrev gone : Text → InodeDelta
gone path = record { path = path; missing = true }

abbrev deltas : List InodeDelta
deltas = gone (codes "etc") ∷ gone (codes "etc/a") ∷ gone (codes "usr/../b") ∷ []

simplified :
    filter_deltas deltas (simplifying deltas ∷ [])
    ≡ gone (codes "etc") ∷ gone (codes "usr/../b") ∷ []
unfolding filter_deltas simplifying
simplified = refl

masked : masking masks (codes "/var/log/x") ≡ false
unfolding masking
masked = refl
