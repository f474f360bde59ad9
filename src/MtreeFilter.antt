-- ===== src/MtreeFilter.antt =====
-- pkg/mtreefilter/mask.go: filters on the deltas of a file tree.
pub mod Mask
pub mod MaskLaws
