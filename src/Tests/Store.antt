-- ===== src/Tests/Store.antt =====
-- oci/cas: a store that keeps the digests of its blobs, and its promises.
use umoci.Base.{
  ◌≡◌, refl, false, String, List, [], ◌∷◌, str_eq, eq_iff, arith, if◌then◌else◌, ap, sym,
}
use umoci.Base.Dict.{contains}
use umoci.Base.Errors.{GoError, sentinel}
use umoci.Base.Result.{Result, ok, err}
use umoci.Image.{Index}
use umoci.Cas.{Engine, IsLawful}

pub record Disk : Type 0 where
  pub index : Index
  pub blobs : List String

unfoldable pub remove : String → List String → List String
remove d [] = []
remove d (b ∷ bs) = let rest = remove d bs in if str_eq d b then rest else b ∷ rest

pub contains-remove_self : (d : String) (bs : List String) → contains (remove d bs) d ≡ false
unfolding contains remove
contains-remove_self d [] = refl
contains-remove_self d (b ∷ bs) = ground (arith, eq_iff d b, eq_iff b d, contains-remove_self d bs)

pub contains-remove_ne :
    (d x : String) (bs : List String)
    → str_eq d x ≡ false
    → contains (remove d bs) x ≡ contains bs x
unfolding contains remove
contains-remove_ne d x [] h = refl
contains-remove_ne d x (b ∷ bs) h =
    ground (arith, eq_iff d b, eq_iff b x, eq_iff d x, contains-remove_ne d x bs h)

-- No blob can be read or added.
abbrev pub disk : Engine
disk = record {
  State = Disk;
  put_blob = λ b s. (err (sentinel "read-only"), s);
  get_blob = λ d s. err (sentinel "not kept");
  stat_blob = λ d s. ok (contains s.blobs d);
  put_index = λ i s. (
    ok tt,
    record s { index = record i { media_type = "application/vnd.oci.image.index.v1+json" } },
  );
  get_index = λ s. ok s.index;
  delete_blob = λ d s. (ok tt, record s { blobs = remove d s.blobs });
  list_blobs = λ s. ok s.blobs;
  clean = λ s. (ok tt, s);
}

abbrev pub ok_or_nil : Result GoError (List String) → List String
ok_or_nil (ok bs) = bs
ok_or_nil (err e) = []

abbrev pub disk-IsLawful : IsLawful disk
disk-IsLawful = record {
  has = λ s x. contains s.blobs x;
  has-delete_blob_self = λ d s h. contains-remove_self d s.blobs;
  has-delete_blob_ne = λ d x s h. contains-remove_ne d x s.blobs h;
  contains-list_blobs = λ s x h. ap (λ r. contains (ok_or_nil r) x) (sym h);
  has-clean = λ s x. refl;
  get_index-clean = λ s. refl;
  get_index-put_index = λ i s h. refl;
  has-put_index = λ i s x. refl;
  get_index-put_index_err = λ i s e h. cc;
}
