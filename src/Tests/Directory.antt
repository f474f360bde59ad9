-- ===== src/Tests/Directory.antt =====
-- oci/cas/dir: the directory store on a file system that is a list of paths with what they hold.
use umoci.Base.{
  ◌≡◌, refl, sym, ap, ◌∙◌, inl, inr, Bool, true, false, ◌&&◌, ◌||◌, String, str_eq, eq_iff, Option,
  none, some, List, [], ◌∷◌, Text, codes, Bool-cases, if◌then◌else◌,
}
use umoci.Base.Errors.{GoError, sentinel}
use umoci.Base.Int.{pos}
use umoci.Base.Result.{Result, ok, err}
use umoci.Base.Program.{Program, done, fail}
use umoci.Image.{Index}
use umoci.Cas
use umoci.CasDir.Disk.{Location, Disk, Digests, Json}
use umoci.CasDir.Engine.{DirEngine, put_blob, same_location, blob_dir}
use umoci.CasDir.Laws.{IsLawfulDisk}
use umoci.CasDir.PutBlob.{IsLawfulContent, Stored, put_blob-Stored}

data Content : Type 0 where
  bytes : Text → Content
  index : Index → Content
  layout : String → Content

abbrev Tree : Type 0
Tree = List (Location × Content)

unfoldable find : Tree → Location → Option Content
unfolding same_location
find [] q = none
find ((p, c) ∷ s) q = let rest = find s q in if same_location p q then some c else rest

unfoldable drop : Location → Tree → Tree
unfolding same_location
drop q [] = []
drop q ((p, c) ∷ s) = let rest = drop q s in if same_location p q then rest else (p, c) ∷ rest

abbrev image : Location
image = "image" ∷ []

abbrev temporary : Location
temporary = ".umoci-1" ∷ image

-- The temporary directory, and what is below it.
unfoldable is_temp : Location → Bool
unfolding same_location
is_temp [] = false
is_temp (c ∷ p) = let rest = is_temp p in same_location (c ∷ p) temporary || rest

abbrev Temp : Location → Type 0
Temp p = is_temp p ≡ true

abbrev missing : GoError
missing = sentinel "file does not exist"

abbrev moved : Option Content → Location → Location → Tree → Result GoError (Unit {0}) × Tree
moved none p q s = (err missing, s)
moved (some c) p q s = (ok tt, (q, c) ∷ drop p s)

-- The paths in the directory of blobs.
unfoldable blobs_in : Tree → List Location
unfolding same_location
blobs_in [] = []
blobs_in (([], c) ∷ s) = blobs_in s
blobs_in ((h ∷ up, c) ∷ s) =
    let rest = blobs_in s in if same_location up (blob_dir image) then (h ∷ up) ∷ rest else rest

abbrev read_of : Option Content → Result GoError Content
read_of none = err missing
read_of (some c) = ok c

abbrev refuse : {A : Type 0} → Program Tree A
refuse = fail (sentinel "permission denied")

abbrev disk : Disk Tree Content
disk = record {
  read_file = λ p s. read_of (find s p);
  stat_dir = λ p s. err missing;
  walk = λ p s. ok (blob_dir image ∷ blobs_in s);
  glob = λ p pattern s. ok (temporary ∷ []);
  temp_dir = λ p prefix. done temporary;
  temp_file = λ d prefix. done (record { fd = 4; path = "new" ∷ d });
  open_file = λ p. done (record { fd = 3; path = p });
  create = λ p. refuse;
  flock = λ f. done tt;
  funlock = λ f. done tt;
  write = λ f c s. (ok tt, (f.path, c) ∷ s);
  close = λ f. done tt;
  rename = λ p q s. moved (find s p) p q s;
  remove = λ p s. (ok tt, drop p s);
  remove_all = λ p s. (ok tt, drop p s);
  mkdir = λ p m. refuse;
  mkdir_all = λ p m. refuse;
}

same_refl : (p : Location) → same_location p p ≡ true
unfolding same_location
same_refl [] = refl
same_refl (c ∷ p) = rw ((eq_iff c c).1 refl) (same_refl p)

same_sound : (p q : Location) → same_location p q ≡ true → p ≡ q
unfolding same_location
same_sound [] [] h = refl
same_sound [] (d ∷ q) h = cc
same_sound (c ∷ p) [] h = cc
same_sound (c ∷ p) (d ∷ q) h = elim (Bool-cases (str_eq c d)) [
  | inl e ↦ let rest = same_sound p q (rw e at h) in rw ((eq_iff c d).0 e, rest) refl
  | inr e ↦ absurd (clash (rw e at h))
]
  where
    clash : false ≡ true → ⊥
    clash k = cc

apart : (p q : Location) → (p ≡ q → ⊥) → same_location p q ≡ false
apart p q n = elim (Bool-cases (same_location p q)) [
  | inl e ↦ absurd (n (same_sound p q e))
  | inr e ↦ e
]

find-drop_self : (s : Tree) (p : Location) → find (drop p s) p ≡ none
unfolding find drop
find-drop_self [] p = refl
find-drop_self ((q, c) ∷ s) p = elim (Bool-cases (same_location q p)) [
  | inl e ↦ rw e (find-drop_self s p)
  | inr e ↦ rw e (rw e (find-drop_self s p))
]

find-drop_ne : (s : Tree) (p r : Location) → (p ≡ r → ⊥) → find (drop p s) r ≡ find s r
unfolding find drop
find-drop_ne [] p r n = refl
find-drop_ne ((q, c) ∷ s) p r n = elim (Bool-cases (same_location q p)) [
  | inl e ↦ rw (e, apart q r (λ f. n (sym (same_sound q p e) ∙ f))) (find-drop_ne s p r n)
  | inr e ↦ rw (e, find-drop_ne s p r n) refl
]

not_temp : (p r : Location) → Temp p → (Temp r → ⊥) → p ≡ r → ⊥
not_temp p r t n e = n (ap is_temp (sym e) ∙ t)

and_false : (b : Bool) → (b && false) ≡ false
and_false true = refl
and_false false = refl

or_true : (b : Bool) → (b || true) ≡ true
or_true true = refl
or_true false = refl

blob_apart : (h : String) → Temp (h ∷ blob_dir image) → ⊥
unfolding is_temp same_location
blob_apart h t = false_true (sym (rw (and_false (str_eq h ".umoci-1")) at t))
  where
    false_true : true ≡ false → ⊥
    false_true k = cc

index_apart : Temp ("index.json" ∷ image) → ⊥
unfolding is_temp same_location
index_apart t = cc

put-Same :
    (s : Tree) (p r : Location) (c : Content)
    → Temp p
    → (Temp r → ⊥)
    → find s r ≡ find ((p, c) ∷ s) r
unfolding find
put-Same s p r c t n = rw (apart p r (not_temp p r t n)) refl

drop-Same : (s : Tree) (p r : Location) → Temp p → (Temp r → ⊥) → find s r ≡ find (drop p s) r
drop-Same s p r t n = sym (find-drop_ne s p r (not_temp p r t n))

rename_self :
    (o : Option Content) (p q : Location) (s : Tree)
    → (moved o p q s).0 ≡ ok tt
    → find (moved o p q s).1 q ≡ o
unfolding find
rename_self none p q s h = cc
rename_self (some c) p q s h = rw (same_refl q) refl

rename_ne :
    (o : Option Content) (p q r : Location) (s : Tree)
    → Temp p
    → (Temp r → ⊥)
    → (q ≡ r → ⊥)
    → find s r ≡ find (moved o p q s).1 r
unfolding find
rename_ne none p q r s t n m = refl
rename_ne (some c) p q r s t n m = rw (apart q r m) (drop-Same s p r t n)

rename_failed :
    (o : Option Content) (p q r : Location) (s : Tree) {e : GoError}
    → (moved o p q s).0 ≡ err e
    → find s r ≡ find (moved o p q s).1 r
rename_failed none p q r s h = refl
rename_failed (some c) p q r s h = cc

disk-IsLawful : IsLawfulDisk disk find Temp image
unfolding is_temp find
disk-IsLawful = record {
  index_visible = index_apart;
  blob_visible = blob_apart;
  read_file-look = λ p s t e. ap read_of e;
  read_file-some = λ p s e. ap read_of e;
  temp_dir-Temp = λ s. rw (same_refl temporary) refl;
  temp_dir-Same = λ s r n. refl;
  open_file-Same = λ p s r n. refl;
  flock-Same = λ f s r n. refl;
  funlock-Same = λ f s r n. refl;
  close-Same = λ f s r n. refl;
  temp_file-Temp = λ d prefix t s. rw t (or_true (same_location ("new" ∷ d) temporary));
  temp_file-Same = λ d prefix t s r n. refl;
  write-Same = λ f c t s r n. put-Same s f.path r c t n;
  written = λ d prefix c s f t h h2 h3. rw (same_refl f.path) refl;
  rename_self = λ p q s h. rename_self (find s p) p q s h;
  rename_ne = λ p q s t r n m. rename_ne (find s p) p q r s t n m;
  rename_failed = λ p q s h r n. rename_failed (find s p) p q r s h;
  remove_self = λ p s h. find-drop_self s p;
  remove_gone = λ p s h g. find-drop_self s p;
  remove_ne = λ p r s n. find-drop_ne s p r n;
  remove_all-Same = λ p t s r n. drop-Same s p r t n;
  glob-Temp = λ s. (rw (same_refl temporary) refl, tt);
}

-- A digest is its digits.
abbrev digits : Digests
digits = record {
  validate = λ d. ok tt;
  algorithm = λ d. "sha256";
  hex = λ d. d;
  new_from_hex = λ algorithm h. h;
  sha256 = λ content. "00";
}

abbrev text_of : Content → Text
text_of (bytes t) = t
text_of (index i) = []
text_of (layout v) = []

abbrev index_of : Content → Result GoError Index
index_of (bytes t) = err (sentinel "not an index")
index_of (index i) = ok i
index_of (layout v) = err (sentinel "not an index")

abbrev layout_of : Content → Result GoError String
layout_of (bytes t) = err (sentinel "not a layout")
layout_of (index i) = err (sentinel "not a layout")
layout_of (layout v) = ok v

abbrev json : Json Content
json = record {
  of_text = bytes;
  to_text = text_of;
  encode_index = index;
  decode_index = index_of;
  encode_layout = layout;
  decode_layout = layout_of;
}

-- These trees have files only, so the directory of blobs is flat in each of them.
abbrev Flat : Tree → Type 0
Flat s = Unit {0}

json-IsLawfulContent : IsLawfulContent digits json
json-IsLawfulContent = record {
  validate-sha256 = λ c. refl;
  algorithm-sha256 = λ c. refl;
  to_text-of_text = λ c. refl;
}

abbrev opened : DirEngine × Tree
opened = (record { temp = none }, [])

put_blob-Stored_example :
    Stored disk digits json image find Temp disk-IsLawful json-IsLawfulContent
      (codes "hi")
      opened
      (put_blob disk digits json image (codes "hi") opened)
put_blob-Stored_example =
    put_blob-Stored disk digits json image find Temp disk-IsLawful json-IsLawfulContent (codes "hi")
      opened tt

put_hi : (put_blob disk digits json image (codes "hi") opened).0 ≡ ok ("00", pos 2)
unfolding put_blob find drop same_location
put_hi = refl
