-- ===== src/Casext/Refname/References.antt =====
-- oci/casext/refname.go: UpdateReference, DeleteReference and ListReferences.
use umoci.Base.{
  ◌+◌, Bool, false, String, Option, none, some, List, [], ◌∷◌, ◌++◌, length, ltb, str_eq,
  if◌then◌else◌,
}
use umoci.Base.Dict.{lookup, insert}
use umoci.Base.Errors.{GoError, sentinel, wrapped}
use umoci.Base.Result.{Result, ok, err, wrap}
use umoci.Cas.{Engine}
use umoci.Image.{Descriptor, Index}
use umoci.Casext.Refname.Name.{is_valid_reference_name}

-- ispec.AnnotationRefName
abbrev pub ref_name_key : String
ref_name_key = "org.opencontainers.image.ref.name"

-- descriptor.Annotations[ispec.AnnotationRefName], with whether the entry is there.
unfoldable pub ref_name? : Descriptor → Option String
ref_name? d = elim d.annotations [ none ↦ none | some m ↦ lookup ref_name_key m ]

-- The same with Go's zero value where there is no entry.
unfoldable pub ref_name : Descriptor → String
unfolding ref_name?
ref_name d = elim (ref_name? d) [ none ↦ "" | some v ↦ v ]

-- The entries of the index that do not carry the name.
unfoldable pub others : String → List Descriptor → List Descriptor
unfolding ref_name
others refname [] = []
others refname (d ∷ ds) =
    let rest = others refname ds in if str_eq (ref_name d) refname then rest else d ∷ rest

-- The root links of ResolveReference: the entries that carry the name.
unfoldable pub roots : String → List Descriptor → List Descriptor
unfolding ref_name
roots refname [] = []
roots refname (d ∷ ds) =
    let rest = roots refname ds in if str_eq (ref_name d) refname then d ∷ rest else rest

-- len(newIndex)-len(index.Manifests) > 1, in signed integers: whether the warning about several
-- matching references is logged.
unfoldable pub warns : List Descriptor → List Descriptor → Bool
warns new old = ltb (length old + 1) (length new)

-- descriptor.Annotations[ispec.AnnotationRefName] = refname, with a new map if there is none.
unfoldable pub with_ref_name : String → Descriptor → Descriptor
with_ref_name refname d = elim d.annotations [
  | none ↦ record d { annotations = some (insert ref_name_key refname []) }
  | some m ↦ record d { annotations = some (insert ref_name_key refname m) }
]

-- The error, whether the warning was logged, and the store afterwards.
pub record Reply (S : Type 0) : Type 0 where
  pub result : Result GoError (Unit {0})
  pub warned : Bool
  pub store : S

-- The loop of ListReferences.
unfoldable pub ref_names : List Descriptor → List String
unfolding ref_name?
ref_names [] = []
ref_names (d ∷ ds) =
    let rest = ref_names ds in elim (ref_name? d) [ none ↦ rest | some r ↦ r ∷ rest ]

module _ (E : Engine) where
  -- Both functions once the new list of entries is known.
  abbrev pub commit_index : Index → List Descriptor → Bool → E.State → Reply E.State
  commit_index index entries warned s =
      let r = E.put_index (record index { manifests = entries }) s in
      record { result = wrap (wrapped "replace index") r.0; warned = warned; store = r.1 }

  abbrev pub refuse : GoError → E.State → Reply E.State
  refuse e s = record { result = err e; warned = false; store = s }

  unfoldable pub update_reference : String → Descriptor → E.State → Reply E.State
  update_reference refname d s =
      if is_valid_reference_name refname
      then elim (E.get_index s) [
        | err e ↦ refuse (wrapped "get top-level index" e) s
        | ok index ↦
            let kept = others refname index.manifests in
            commit_index index (kept ++ with_ref_name refname d ∷ []) (warns kept index.manifests) s
      ]
      else refuse (sentinel "refusing to update invalid reference") s

  unfoldable pub delete_reference : String → E.State → Reply E.State
  delete_reference refname s =
      if is_valid_reference_name refname
      then elim (E.get_index s) [
        | err e ↦ refuse (wrapped "get top-level index" e) s
        | ok index ↦
            let kept = others refname index.manifests in
            commit_index index kept (warns kept index.manifests) s
      ]
      else refuse (sentinel "refusing to delete invalid reference") s

  unfoldable pub list_references : E.State → Result GoError (List String)
  unfolding ref_names
  list_references s = elim (E.get_index s) [
    | err e ↦ err (wrapped "get top-level index" e)
    | ok index ↦ ok (ref_names index.manifests)
  ]
