-- ===== src/MtreeFilter/Mask.antt =====
-- pkg/mtreefilter/mask.go: MaskFilter, SimplifyFilter and FilterDeltas. A path that makeRoot has made
-- is the list of its components, the last one first, so that filepath.Dir drops the head; the root
-- is the empty list.
use umoci.Base.{Bool, true, false, not, ◌&&◌, ◌||◌, List, [], ◌∷◌, Text, text_eq, if◌then◌else◌}
use umoci.IdTools.Parse.{split}

abbrev pub RootedPath : Type 0
RootedPath = List Text

-- One component of a path under filepath.Clean, above the cleaned ones before it.
unfoldable pub enter : Text → RootedPath → RootedPath
unfolding text_eq
enter c above =
    if text_eq c [] || text_eq c (b'.' ∷ [])
    then above
    else if text_eq c (b'.' ∷ b'.' ∷ [])
    then elim above [ [] ↦ [] | d ∷ up ↦ up ]
    else c ∷ above

unfoldable pub enter_all : List Text → RootedPath → RootedPath
unfolding enter
enter_all [] above = above
enter_all (c ∷ cs) above = enter_all cs (enter c above)

-- makeRoot
unfoldable pub make_root : Text → RootedPath
unfolding enter_all split
make_root path = enter_all (split b'/' path) []

unfoldable pub path_eq : RootedPath → RootedPath → Bool
unfolding text_eq
path_eq [] [] = true
path_eq (c ∷ p) (d ∷ q) = text_eq c d && path_eq p q
path_eq _ _ = false

-- _, ok := maskedPaths[parent]
unfoldable pub is_masked : List RootedPath → RootedPath → Bool
unfolding path_eq
is_masked [] p = false
is_masked (m ∷ ms) p = path_eq m p || is_masked ms p

-- The loop of maskFilter from a path up to the root, which is not looked at.
unfoldable pub ancestors_free : List RootedPath → RootedPath → Bool
unfolding is_masked
ancestors_free ms [] = true
ancestors_free ms (c ∷ up) = let rest = ancestors_free ms up in not (is_masked ms (c ∷ up)) && rest

-- maskFilter. Only the first path of the loop is the path itself.
unfoldable pub mask_filter : List RootedPath → Bool → Text → Bool
unfolding ancestors_free make_root
mask_filter ms include_self path = elim (make_root path) [
  | [] ↦ true
  | c ∷ up ↦ (not (is_masked ms (c ∷ up)) || not include_self) && ancestors_free ms up
]

unfoldable pub make_roots : List Text → List RootedPath
unfolding make_root
make_roots [] = []
make_roots (p ∷ ps) = make_root p ∷ make_roots ps

-- MaskFilter
unfoldable pub masking : List Text → Text → Bool
unfolding mask_filter make_roots
masking masks = mask_filter (make_roots masks) true

-- mtree.InodeDelta, by its path and whether its type is Missing.
pub record InodeDelta : Type 0 where
  pub path : Text
  pub missing : Bool

unfoldable pub deleted_paths : List InodeDelta → List RootedPath
unfolding make_root
deleted_paths [] = []
deleted_paths (d ∷ ds) =
    let rest = deleted_paths ds in if d.missing then make_root d.path ∷ rest else rest

-- SimplifyFilter
unfoldable pub simplifying : List InodeDelta → Text → Bool
unfolding mask_filter deleted_paths
simplifying deltas = mask_filter (deleted_paths deltas) false

-- The inner loop of FilterDeltas.
unfoldable pub passes : List (Text → Bool) → Text → Bool
passes [] path = true
passes (f ∷ fs) path = if f path then passes fs path else false

-- FilterDeltas
unfoldable pub filter_deltas : List InodeDelta → List (Text → Bool) → List InodeDelta
unfolding passes
filter_deltas [] fs = []
filter_deltas (d ∷ ds) fs =
    let rest = filter_deltas ds fs in if passes fs d.path then d ∷ rest else rest
