-- ===== src/Layer/Inside.antt =====
-- oci/layer: which paths are inside a directory, and the components of paths.
use umoci.Base.{
  ◌≡◌, refl, ◌⊎◌, inl, inr, true, false, ◌||◌, [], ◌∷◌, ◌++◌, List, Text, text_eq, All, Bool-cases,
  if◌then◌else◌,
}
use umoci.FilePath.{enter, enter_all, dot, dot_dot}
use umoci.IdTools.Parse.{split}
use umoci.Layer.Paths.{Components, clean_path, join_file}
use umoci.Layer.Extractor.{wh_prefix}
use umoci.Layer.Whiteout.{is_opaque, trim_prefix, whiteout_target}

-- The path is the root or below it.
abbrev pub Inside : Components → Components → Type 0
Inside root p = (cs : Components) × (p ≡ cs ++ root)

-- The component does not lead up.
abbrev pub IsPlain : Text → Type 0
IsPlain c = text_eq c dot_dot ≡ false

-- The component leads down.
abbrev pub IsProper : Text → Type 0
IsProper c = ((text_eq c [] || text_eq c dot) ≡ false) × IsPlain c

enter-IsProper :
    (c : Text) (above : List Text) → All IsProper above → All IsProper (enter true c above)
unfolding enter
enter-IsProper c above h = elim (Bool-cases (text_eq c [] || text_eq c dot)) [
  | inl e ↦ rw e h
  | inr e ↦ rw e (elim (Bool-cases (text_eq c dot_dot)) [
    | inl f ↦ rw f (up above h)
    | inr f ↦ rw f ((e, f), h)
  ])
]
  where
    up :
        (cs : List Text)
        → All IsProper cs
        → All IsProper
            (elim cs [ [] ↦ [] | d ∷ ds ↦ if text_eq d dot_dot then dot_dot ∷ d ∷ ds else ds ])
    up [] g = tt
    up (d ∷ ds) (p, g) = rw p.1 g

enter_all-IsProper :
    (cs above : List Text) → All IsProper above → All IsProper (enter_all true cs above)
unfolding enter_all
enter_all-IsProper [] above h = h
enter_all-IsProper (c ∷ cs) above h =
    enter_all-IsProper cs (enter true c above) (enter-IsProper c above h)

pub clean_path-IsProper : (name : Text) → All IsProper (clean_path name)
unfolding clean_path
clean_path-IsProper name = enter_all-IsProper (split b'/' name) [] tt

-- The directory, or something in it.
abbrev pub Near : Components → Components → Type 0
Near d p = (p ≡ d) ⊎ ((c : Text) × (p ≡ c ∷ d))

-- Joining a component that does not lead up stays in the directory.
pub join_file-Near : (d : Components) (c : Text) → IsPlain c → Near d (join_file d c)
unfolding join_file enter
join_file-Near d c plain = elim (Bool-cases (text_eq c [] || text_eq c dot)) [
  | inl f ↦ rw f (inl refl)
  | inr f ↦ rw (f, plain) (inr (c, refl))
]

pub join_file-IsProper : (d : Components) (c : Text) → IsProper c → join_file d c ≡ c ∷ d
unfolding join_file enter
join_file-IsProper d c (f, plain) = rw (f, plain) refl

-- A whiteout of a name that does not lead up.
abbrev pub IsContained : Text → Type 0
IsContained file = IsPlain (trim_prefix file wh_prefix)

pub whiteout_target-Near :
    (d : Components) (file : Text) → IsContained file → Near d (whiteout_target d file)
unfolding whiteout_target
whiteout_target-Near d file plain = elim (Bool-cases (is_opaque file)) [
  | inl f ↦ rw f (inl refl)
  | inr f ↦ rw f (join_file-Near d (trim_prefix file wh_prefix) plain)
]
