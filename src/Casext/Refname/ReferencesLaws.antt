-- ===== src/Casext/Refname/ReferencesLaws.antt =====
-- oci/casext/refname.go: updating or deleting a reference name changes that name alone.
use mathlib.Core.List.{append-nil}
use umoci.Base.{
  ◌≤◌, ◌≡◌, ◌≢◌, refl, ◌∙◌, inl, inr, true, false, String, some, List, [], ◌∷◌, ◌++◌, arith, length,
  eq_iff, Bool-cases, Option-cases,
}
use umoci.Base.Dict.{Dict, lookup, insert, lookup-insert}
use umoci.Base.Errors.{wrapped}
use umoci.Base.Result.{ok, wrap, Result-cases}
use umoci.Cas.{Engine, IsLawful}
use umoci.Image.{Descriptor, Index}
use umoci.Casext.Refname.Name.{is_valid_reference_name}
use umoci.Casext.Refname.References.{
  ref_name_key, ref_name, others, roots, warns, with_ref_name, commit_index, update_reference,
  delete_reference,
}

roots-others_self : (n : String) (ds : List Descriptor) → roots n (others n ds) ≡ []
unfolding roots others
roots-others_self n [] = refl
roots-others_self n (d ∷ ds) = ground (arith, roots-others_self n ds)

roots-others_ne : (n m : String) (ds : List Descriptor) → m ≢ n → roots m (others n ds) ≡ roots m ds
unfolding roots others
roots-others_ne n m [] h = refl
roots-others_ne n m (d ∷ ds) h =
    ground (arith, roots-others_ne n m ds h, eq_iff (ref_name d) n, eq_iff (ref_name d) m)

roots-append :
    (n : String) (ds es : List Descriptor) → roots n (ds ++ es) ≡ roots n ds ++ roots n es
unfolding roots
roots-append n [] es = refl
roots-append n (d ∷ ds) es = ground (arith, roots-append n ds es)

lookup_entry :
    (n : String) (m : Dict String) → lookup ref_name_key (insert ref_name_key n m) ≡ some n
lookup_entry n m = lookup-insert ref_name_key ref_name_key n m

ref_name-with_ref_name : (n : String) (d : Descriptor) → ref_name (with_ref_name n d) ≡ n
unfolding with_ref_name ref_name
ref_name-with_ref_name n d = elim (Option-cases d.annotations) [
  | inl e ↦ ground (arith, lookup_entry n [])
  | inr (m, e) ↦ ground (arith, lookup_entry n m)
]

length-others : (n : String) (ds : List Descriptor) → length (others n ds) ≤ length ds
unfolding others
length-others n [] = omega arith
length-others n (d ∷ ds) = ground (arith, length-others n ds)

roots_one :
    (n : String) (d : Descriptor) → roots n (with_ref_name n d ∷ []) ≡ with_ref_name n d ∷ []
unfolding roots
roots_one n d = ground (arith, ref_name-with_ref_name n d, eq_iff (ref_name (with_ref_name n d)) n)

roots_one_ne : (n m : String) (d : Descriptor) → m ≢ n → roots m (with_ref_name n d ∷ []) ≡ []
unfolding roots
roots_one_ne n m d h =
    ground (arith, ref_name-with_ref_name n d, eq_iff (ref_name (with_ref_name n d)) m)

module _ (E : Engine) (L : IsLawful E) where
  -- The index afterwards has the given entries for the name, and for any other name the entries
  -- that it had. The blobs are those that there were.
  pub record Rewrites (n : String) (found : List Descriptor) (index : Index) (s after : E.State)
      : Type 0 where
    pub entries : List Descriptor
    pub read :
        E.get_index after
        ≡ ok (record index {
          media_type = "application/vnd.oci.image.index.v1+json";
          manifests = entries;
        })
    pub of_name : roots n entries ≡ found
    pub of_others : (m : String) → m ≢ n → roots m entries ≡ roots m index.manifests
    pub blobs : (x : String) → L.has after x ≡ L.has s x

  put-Rewrites :
      (n : String) (found entries : List Descriptor) (index : Index) (s : E.State)
      → wrap (wrapped "replace index") (E.put_index (record index { manifests = entries }) s).0
        ≡ ok tt
      → roots n entries ≡ found
      → ((m : String) → m ≢ n → roots m entries ≡ roots m index.manifests)
      → Rewrites n found index s (E.put_index (record index { manifests = entries }) s).1
  put-Rewrites n found entries index s done a b = record {
    entries = entries;
    read = L.get_index-put_index (record index { manifests = entries }) s (ground arith);
    of_name = a;
    of_others = b;
    blobs = λ x. L.has-put_index (record index { manifests = entries }) s x;
  }

  update_at :
      (n : String) (d : Descriptor) (s : E.State) (index : Index)
      → E.get_index s ≡ ok index
      → is_valid_reference_name n ≡ true
      → update_reference E n d s
        ≡ commit_index E index
            (others n index.manifests ++ with_ref_name n d ∷ [])
            (warns (others n index.manifests) index.manifests)
            s
  unfolding update_reference
  update_at n d s index read good = rw (good, update_reference) (rw read)

  delete_at :
      (n : String) (s : E.State) (index : Index)
      → E.get_index s ≡ ok index
      → is_valid_reference_name n ≡ true
      → delete_reference E n s
        ≡ commit_index E index
            (others n index.manifests)
            (warns (others n index.manifests) index.manifests)
            s
  unfolding delete_reference
  delete_at n s index read good = rw (good, delete_reference) (rw read)

  -- In a lawful store, if UpdateReference succeeds then the index has one entry for the name, the
  -- given descriptor with the name as its annotation. The entries of every other name are those
  -- that there were, and so are the blobs.
  pub update_reference-Rewrites :
      (n : String) (d : Descriptor) (s : E.State) (index : Index)
      → E.get_index s ≡ ok index
      → (update_reference E n d s).result ≡ ok tt
      → Rewrites n (with_ref_name n d ∷ []) index s (update_reference E n d s).store
  update_reference-Rewrites n d s index read done = elim (Bool-cases (is_valid_reference_name n)) [
    | inr bad ↦ unfold update_reference in ground arith
    | inl good ↦
        let run = update_at n d s index read good in
        rw run (
          put-Rewrites n (with_ref_name n d ∷ [])
            (others n index.manifests ++ with_ref_name n d ∷ []) index s (rw run at done)
            (roots-append n (others n index.manifests) (with_ref_name n d ∷ [])
              ∙ rw (roots-others_self n index.manifests) (roots_one n d))
            (λ m h.
              roots-append m (others n index.manifests) (with_ref_name n d ∷ [])
              ∙ rw (roots-others_ne n m index.manifests h, roots_one_ne n m d h)
                  (append-nil (roots m index.manifests))))
  ]

  -- In a lawful store, if DeleteReference succeeds then the index has no entry for the name. The
  -- entries of every other name are those that there were, and so are the blobs.
  pub delete_reference-Rewrites :
      (n : String) (s : E.State) (index : Index)
      → E.get_index s ≡ ok index
      → (delete_reference E n s).result ≡ ok tt
      → Rewrites n [] index s (delete_reference E n s).store
  delete_reference-Rewrites n s index read done = elim (Bool-cases (is_valid_reference_name n)) [
    | inr bad ↦ unfold delete_reference in ground arith
    | inl good ↦
        let run = delete_at n s index read good in
        rw run (
          put-Rewrites n [] (others n index.manifests) index s (rw run at done)
            (roots-others_self n index.manifests) (λ m h. roots-others_ne n m index.manifests h))
  ]

  warns_never : (n : String) (ds : List Descriptor) → warns (others n ds) ds ≡ false
  unfolding warns
  warns_never n ds = ground (arith, length-others n ds)

  -- The warning about several entries of one name is never logged, by UpdateReference or by
  -- DeleteReference, however many entries the name has.
  pub references_never_warn :
      (n : String) (d : Descriptor) (s : E.State)
      → ((update_reference E n d s).warned ≡ false) × ((delete_reference E n s).warned ≡ false)
  unfolding update_reference delete_reference
  references_never_warn n d s = elim (Result-cases (E.get_index s)) [
    | inl (index, e) ↦ (
      ground (arith, warns_never n index.manifests),
      ground (arith, warns_never n index.manifests),
    )
    | inr (x, e) ↦ (ground arith, ground arith)
  ]
