-- ===== src/FilePath.antt =====
-- The functions of Go's path/filepath that the code calls, on Unix.
use umoci.Base.{
  ℕ, ◌≡◌, refl, Bool, true, false, not, ◌&&◌, ◌||◌, ◌==◌, Option, none, some, List, [], ◌∷◌, ◌++◌,
  Text, text_eq, has_prefix, codes, if◌then◌else◌,
}
use umoci.IdTools.Parse.{split}

abbrev pub dot : Text
dot = b'.' ∷ []

abbrev pub dot_dot : Text
dot_dot = b'.' ∷ b'.' ∷ []

unfoldable pub is_abs : Text → Bool
unfolding has_prefix
is_abs path = has_prefix path (b'/' ∷ [])

-- One component under Clean, above the cleaned ones before it, the last one first.
unfoldable pub enter : Bool → Text → List Text → List Text
unfolding text_eq
enter absolute c above =
    if text_eq c [] || text_eq c dot
    then above
    else if text_eq c dot_dot
    then elim above [
      | [] ↦ if absolute then [] else dot_dot ∷ []
      | d ∷ up ↦ if text_eq d dot_dot then dot_dot ∷ d ∷ up else up
    ]
    else c ∷ above

unfoldable pub enter_all : Bool → List Text → List Text → List Text
unfolding enter
enter_all absolute [] above = above
enter_all absolute (c ∷ cs) above = enter_all absolute cs (enter absolute c above)

-- The components of the cleaned path, the last one first.
unfoldable pub components : Text → List Text
unfolding enter_all split is_abs
components path = enter_all (is_abs path) (split b'/' path) []

-- The components with slashes between them; `above` has the last one first.
unfoldable pub print_onto : List Text → Text → Text
print_onto [] below = below
print_onto (c ∷ above) below = print_onto above (c ++ b'/' ∷ below)

unfoldable pub print : List Text → Text
unfolding print_onto
print [] = []
print (c ∷ above) = print_onto above c

unfoldable pub clean_of : Bool → List Text → Text
unfolding print
clean_of true cs = b'/' ∷ print cs
clean_of false [] = dot
clean_of false (c ∷ cs) = print (c ∷ cs)

-- filepath.Clean
unfoldable pub clean : Text → Text
unfolding clean_of components
clean path = clean_of (is_abs path) (components path)

-- The parts that are not empty, with slashes between them.
unfoldable pub glue : List Text → Text
glue [] = []
glue ([] ∷ ps) = glue ps
glue ((c ∷ p) ∷ ps) = (c ∷ p) ++ b'/' ∷ glue ps

-- filepath.Join; a slash at the end is cleaned away.
unfoldable pub join : List Text → Text
unfolding glue clean
join ps = elim (glue ps) [ [] ↦ [] | c ∷ p ↦ clean (c ∷ p) ]

-- A character in front of a path that was split.
abbrev pub into_file : ℕ → Text × Text → Text × Text
into_file c ([], file) = if c == b'/' then (c ∷ [], file) else ([], c ∷ file)
into_file c (d ∷ dir, file) = (c ∷ d ∷ dir, file)

-- filepath.Split: up to the last slash, and what is behind it.
unfoldable pub split_file : Text → Text × Text
split_file [] = ([], [])
split_file (c ∷ path) = into_file c (split_file path)

-- filepath.Dir
unfoldable pub dir : Text → Text
unfolding clean split_file
dir path = clean (split_file path).0

abbrev pub base_of : Bool → List Text → Text
base_of absolute (c ∷ up) = c
base_of true [] = b'/' ∷ []
base_of false [] = dot

-- filepath.Base of a clean path.
unfoldable pub base : Text → Text
unfolding components
base path = base_of (is_abs path) (components path)

unfoldable pub turn : List Text → List Text → List Text
turn [] onto = onto
turn (c ∷ cs) onto = turn cs (c ∷ onto)

-- The rest of two paths behind what they share, for paths with the first component first.
unfoldable pub differ : List Text → List Text → List Text × List Text
unfolding text_eq
differ (c ∷ cs) (d ∷ ds) = let rest = differ cs ds in if text_eq c d then rest else (c ∷ cs, d ∷ ds)
differ cs ds = (cs, ds)

-- As many ".." as components, or nothing where one of them is "..".
unfoldable pub climb : List Text → List Text → Option (List Text)
unfolding text_eq
climb [] down = some down
climb (c ∷ cs) down = if text_eq c dot_dot then none else climb cs (dot_dot ∷ down)

-- filepath.Rel; `none` is the error.
unfoldable pub rel : Text → Text → Option Text
unfolding components turn differ climb clean_of
rel from to =
    let parts = differ (turn (components from) []) (turn (components to) []) in
    if (is_abs from && is_abs to) || not (is_abs from || is_abs to)
    then elim (climb parts.0 parts.1) [ none ↦ none | some cs ↦ some (clean_of false (turn cs [])) ]
    else none

clean_run : clean (codes "/a/./b//../c/") ≡ codes "/a/c"
unfolding clean
clean_run = refl

clean_up_run : clean (codes "../../a/..") ≡ codes "../.."
unfolding clean
clean_up_run = refl

dir_run : dir (codes "/a/b/c") ≡ codes "/a/b"
unfolding dir
dir_run = refl

join_run : join (codes "a" ∷ [] ∷ codes "../b" ∷ []) ≡ codes "b"
unfolding join
join_run = refl

rel_run : rel (codes "/a/b") (codes "/a/c/d") ≡ some (codes "../c/d")
unfolding rel
rel_run = refl

rel_self_run : rel (codes "/a/b") (codes "/a/b/") ≡ some dot
unfolding rel
rel_self_run = refl
