-- ===== src/Layer/Paths.antt =====
-- Paths of the extraction: lists of components, the last one first. A path on the file system is
-- absolute and clean. A path relative to the root of the extraction is what stands above the root,
-- and ".." components where it leads out of the root.
use umoci.Base.{Bool, true, false, ◌&&◌, ◌||◌, List, [], ◌∷◌, ◌++◌, Text, text_eq}
use umoci.FilePath.{enter, enter_all, turn, differ, dot_dot}
use umoci.IdTools.Parse.{split}

abbrev pub Components : Type 0
Components = List Text

unfoldable pub same_path : Components → Components → Bool
unfolding text_eq
same_path [] [] = true
same_path (c ∷ p) (d ∷ q) = text_eq c d && same_path p q
same_path [] (d ∷ q) = false
same_path (c ∷ p) [] = false

-- A Go set of paths.
unfoldable pub is_member : List Components → Components → Bool
unfolding same_path
is_member [] p = false
is_member (q ∷ qs) p = same_path q p || is_member qs p

-- CleanPath of a name that is joined to a directory afterwards: whether the name was absolute makes no
-- difference then, and the empty name and "." lead to the directory itself.
unfoldable pub clean_path : Text → Components
unfolding enter_all split
clean_path name = enter_all true (split b'/' name) []

-- filepath.Join of an absolute path and one component.
unfoldable pub join_file : Components → Text → Components
unfolding enter
join_file dir file = enter true file dir

-- As many ".." as components, below the given ones.
unfoldable pub climb_out : List Text → Components → Components
climb_out [] down = down
climb_out (c ∷ cs) down = climb_out cs (down ++ dot_dot ∷ [])

abbrev pub relative : List Text × List Text → Components
relative (up, down) = climb_out up (turn down [])

-- filepath.Rel of two absolute clean paths, which has no error.
unfoldable pub rel_path : Components → Components → Components
unfolding differ turn climb_out
rel_path root path = relative (differ (turn root []) (turn path []))
