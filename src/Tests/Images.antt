-- ===== src/Tests/Images.antt =====
-- oci/casext: an image of one manifest with its configuration, and one blob that nothing refers to.
use umoci.Base.{
  ◌≡◌, ◌≢◌, refl, ◌∙◌, sym, ap, ◌⊎◌, inl, inr, true, false, Bool, none, some, String, List, [], ◌∷◌,
  str_eq, eq_iff, arith, if◌then◌else◌,
}
use umoci.Base.Dict.{contains, eq_self}
use umoci.Base.Errors.{GoError, sentinel}
use umoci.Base.Int.{pos}
use umoci.Base.Result.{Result, ok, err}
use umoci.Image.{Descriptor, Index}
use umoci.Tests.Store.{Disk, disk, disk-IsLawful, remove}
use umoci.Casext.Value.{Value, leaf, struct, nil, cons, child_descriptors}
use umoci.Casext.ValueLaws.{descriptors_in, child_descriptors-eq}
use umoci.Casext.Walk.{Halt, out_of_fuel, expand, reachable}
use umoci.Casext.Reach.{Marked, Listed, Reach, here, next, children}
use umoci.Casext.Marking.{IsCoherent, reachable_complete, reachable_sound}
use umoci.Casext.Fuel.{reachable_fueled}
use umoci.Casext.Gc.{gc, may_delete}
use umoci.Casext.Roots.{RootsCoherent, ReachFrom}
use umoci.Casext.GcLaws.{gc_keeps, gc_removes, gc_fueled}
use umoci.Casext.Refname.Name.{is_valid_reference_name}
use umoci.Casext.Refname.References.{with_ref_name, update_reference, delete_reference}
use umoci.Casext.Refname.ReferencesLaws.{
  Rewrites, update_reference-Rewrites, delete_reference-Rewrites, references_never_warn,
}

abbrev blob : String → String → Descriptor
blob media_type digest = record {
  media_type = media_type;
  digest = digest;
  size = pos 7;
  urls = [];
  annotations = none;
  platform = none;
}

abbrev manifest : Descriptor
manifest = with_ref_name "v1" (blob "manifest" "m")

abbrev config : Descriptor
config = blob "config" "c"

abbrev index : Index
index = record {
  schema_version = 2;
  media_type = "application/vnd.oci.image.index.v1+json";
  manifests = manifest ∷ [];
  annotations = none;
}

abbrev before : Disk
before = record { index = index; blobs = "m" ∷ "old" ∷ "c" ∷ [] }

abbrev same : Descriptor → Descriptor → Bool
same a b = str_eq a.digest b.digest

abbrev registered : String → Bool
registered pkg = true

abbrev parseable : String → Bool
parseable t = str_eq t "manifest"

abbrev body : Value
body = struct "ispec" (cons (leaf config) nil)

abbrev fetch : Disk → Descriptor → Result GoError Value
fetch s d = if str_eq d.digest "m" then ok body else err (sentinel "no such blob")

children_of_manifest : children same registered parseable (fetch before) manifest ≡ ok (config ∷ [])
unfolding expand child_descriptors with_ref_name
children_of_manifest = refl

children_of_config : children same registered parseable (fetch before) config ≡ ok []
unfolding expand
children_of_config = refl

abbrev IsNode : Descriptor → Type 0
IsNode d = (d ≡ manifest) ⊎ (d ≡ config)

abbrev ok_or_nil : Result Halt (List Descriptor) → List Descriptor
ok_or_nil (ok ds) = ds
ok_or_nil (err e) = []

child-IsNode :
    (d c : Descriptor) (cs : List Descriptor)
    → IsNode d
    → children same registered parseable (fetch before) d ≡ ok cs
    → Listed c cs
    → IsNode c
child-IsNode d c cs (inl p) q l =
    let e : cs ≡ config ∷ [] =
      ap ok_or_nil
        (sym q ∙ ap (children same registered parseable (fetch before)) p ∙ children_of_manifest) in
    listed (rw e at l)
  where
    listed : Listed c (config ∷ []) → IsNode c
    listed (inl e) = inr e
    listed (inr e) = absurd e
child-IsNode d c cs (inr p) q l =
    let e : cs ≡ [] =
      ap ok_or_nil
        (sym q ∙ ap (children same registered parseable (fetch before)) p ∙ children_of_config) in
    absurd (rw e at l)

Reach-IsNode :
    {d : Descriptor} → Reach same registered parseable (fetch before) manifest d → IsNode d
Reach-IsNode here = inl refl
Reach-IsNode (next {e = x} {c = y} cs v q l) = child-IsNode x y cs (Reach-IsNode v) q l

digests_differ : manifest.digest ≢ config.digest
unfolding with_ref_name
digests_differ h = ground (arith, eq_iff "m" "c")

manifest-IsCoherent : IsCoherent same registered parseable (fetch before) manifest
manifest-IsCoherent d e v w h = elim (Reach-IsNode v) [
  | inl p ↦ elim (Reach-IsNode w) [
    | inl q ↦ rw (p, q) refl
    | inr q ↦ absurd (digests_differ (rw (p, q) at h))
  ]
  | inr p ↦ elim (Reach-IsNode w) [
    | inl q ↦ absurd (digests_differ (sym (rw (p, q) at h)))
    | inr q ↦ rw (p, q) refl
  ]
]

roots-coherent : RootsCoherent disk same registered parseable fetch before index.manifests
roots-coherent d (inl e) = rw e manifest-IsCoherent
roots-coherent d (inr e) = absurd e

config_below : Reach same registered parseable (fetch before) manifest config
config_below = next (config ∷ []) here children_of_manifest (inl refl)

from_roots :
    {d : Descriptor}
    → ReachFrom disk same registered parseable fetch before index.manifests d
    → IsNode d
from_roots {d = d} (r, inl e, v) = Reach-IsNode (rw e at v)
from_roots (r, inr e, v) = absurd e

node_digests : List String
node_digests = "m" ∷ "c" ∷ []

Marked-node : {d : Descriptor} → IsNode d → Marked node_digests d.digest
unfolding contains with_ref_name node_digests
Marked-node (inl e) = rw e refl
Marked-node (inr e) = rw e refl

not_old : {d : Descriptor} → IsNode d → d.digest ≢ "old"
unfolding with_ref_name
not_old (inl e) h = ground (arith, eq_iff "m" "old")
not_old (inr e) h = ground (arith, eq_iff "c" "old")

found : reachable same registered parseable (fetch before) 3 manifest ≡ ok ("c" ∷ "m" ∷ [])
unfolding reachable child_descriptors with_ref_name contains
found = refl

collected : (gc disk same registered parseable fetch [] 3 before).0 ≡ ok tt
unfolding gc child_descriptors with_ref_name contains remove reachable
collected = refl

gc_keeps_example :
    disk-IsLawful.has (gc disk same registered parseable fetch [] 3 before).1 config.digest
    ≡ disk-IsLawful.has before config.digest
gc_keeps_example =
    gc_keeps disk disk-IsLawful same registered parseable fetch [] 3 before index config refl
      roots-coherent (manifest, inl refl, config_below)

gc_removes_example :
    disk-IsLawful.has (gc disk same registered parseable fetch [] 3 before).1 "old" ≡ false
gc_removes_example =
    gc_removes disk disk-IsLawful same registered parseable fetch [] 3 before index "old" refl
      roots-coherent (λ e v. not_old (from_roots v)) (unfold may_delete in refl) collected

gc_fueled_example : (gc disk same registered parseable fetch [] 3 before).0 ≢ err out_of_fuel
gc_fueled_example =
    gc_fueled disk disk-IsLawful same registered parseable fetch [] 3 before index node_digests refl
      roots-coherent (λ e v. Marked-node (from_roots v)) (unfold node_digests in omega arith)

reachable_complete_example : Marked ("c" ∷ "m" ∷ []) config.digest
reachable_complete_example =
    reachable_complete same registered parseable (fetch before) manifest manifest-IsCoherent 3
      ("c" ∷ "m" ∷ []) config found config_below

listed_c : Marked ("c" ∷ "m" ∷ []) "c"
unfolding contains
listed_c = refl

reachable_sound_example :
    (e : Descriptor) × Reach same registered parseable (fetch before) manifest e × (e.digest ≡ "c")
reachable_sound_example =
    reachable_sound same registered parseable (fetch before) manifest manifest-IsCoherent 3
      ("c" ∷ "m" ∷ []) "c" found listed_c

reachable_fueled_example :
    reachable same registered parseable (fetch before) 3 manifest ≢ err out_of_fuel
reachable_fueled_example =
    reachable_fueled same registered parseable (fetch before) manifest manifest-IsCoherent
      node_digests (λ d v. Marked-node (Reach-IsNode v)) 3 (unfold node_digests in omega arith)

updated : (update_reference disk "v2" config before).result ≡ ok tt
unfolding update_reference is_valid_reference_name
updated = refl

update_reference-Rewrites_example :
    Rewrites disk disk-IsLawful "v2"
      (with_ref_name "v2" config ∷ [])
      index
      before
      (update_reference disk "v2" config before).store
update_reference-Rewrites_example =
    update_reference-Rewrites disk disk-IsLawful "v2" config before index refl updated

deleted : (delete_reference disk "v1" before).result ≡ ok tt
unfolding delete_reference is_valid_reference_name
deleted = refl

delete_reference-Rewrites_example :
    Rewrites disk disk-IsLawful "v1" [] index before (delete_reference disk "v1" before).store
delete_reference-Rewrites_example =
    delete_reference-Rewrites disk disk-IsLawful "v1" before index refl deleted

references_never_warn_example :
    ((update_reference disk "v1" config before).warned ≡ false)
    × ((delete_reference disk "v1" before).warned ≡ false)
references_never_warn_example = references_never_warn disk disk-IsLawful "v1" config before

child_descriptors-eq_example :
    child_descriptors same registered body ≡ some (descriptors_in registered body)
child_descriptors-eq_example = child_descriptors-eq same registered (λ d. eq_self d.digest) body
