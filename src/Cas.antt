-- ===== src/Cas.antt =====
-- oci/cas/cas.go: the interface of a content-addressed store, and what its comments promise.
use umoci.Base.{Bool, false, ◌≡◌, String, List, Text, str_eq}
use umoci.Base.Dict.{contains}
use umoci.Base.Errors.{GoError}
use umoci.Base.Int.{ℤ}
use umoci.Base.Result.{Result, ok, err}
use umoci.Image.{Index}

-- cas.Engine. A method that changes the store returns the store as it is then, errors included.
pub record Engine : Type 1 where
  pub State : Type 0
  pub put_blob : Text → State → Result GoError (String × ℤ) × State
  pub get_blob : String → State → Result GoError Text
  pub stat_blob : String → State → Result GoError Bool
  pub put_index : Index → State → Result GoError (Unit {0}) × State
  pub get_index : State → Result GoError Index
  pub delete_blob : String → State → Result GoError (Unit {0}) × State
  pub list_blobs : State → Result GoError (List String)
  pub clean : State → Result GoError (Unit {0}) × State

-- The promises of the interface's comments that its clients rely on. `has` says which blobs are
-- in the store, and `back` what an index is once it was stored and read.
pub record Keeps (E : Engine) (back : Index → Result GoError Index) : Type 0 where
  pub has : E.State → String → Bool
  -- A nil error of DeleteBlob means that the content is not in the store; other blobs stay.
  pub has-delete_blob_self :
      (d : String) (s : E.State)
      → (E.delete_blob d s).0 ≡ ok tt
      → has (E.delete_blob d s).1 d ≡ false
  pub has-delete_blob_ne :
      (d x : String) (s : E.State) → str_eq d x ≡ false → has (E.delete_blob d s).1 x ≡ has s x
  -- ListBlobs returns the blobs stored in the image.
  pub contains-list_blobs :
      (s : E.State) {bs : List String} (x : String)
      → E.list_blobs s ≡ ok bs
      → contains bs x ≡ has s x
  -- Clean must not remove any blobs, nor references.
  pub has-clean : (s : E.State) (x : String) → has (E.clean s).1 x ≡ has s x
  pub get_index-clean : (s : E.State) → E.get_index (E.clean s).1 ≡ E.get_index s
  -- What PutIndex stores, GetIndex returns, with the media type that PutIndex sets.
  pub get_index-put_index :
      (i : Index) (s : E.State)
      → (E.put_index i s).0 ≡ ok tt
      → E.get_index (E.put_index i s).1
        ≡ back (record i { media_type = "application/vnd.oci.image.index.v1+json" })
  pub has-put_index : (i : Index) (s : E.State) (x : String) → has (E.put_index i s).1 x ≡ has s x
  pub get_index-put_index_err :
      (i : Index) (s : E.State) (e : GoError)
      → (E.put_index i s).0 ≡ err e
      → E.get_index (E.put_index i s).1 ≡ E.get_index s

-- The promises, for a store that gives each index back as it was.
abbrev pub IsLawful : Engine → Type 0
IsLawful E = Keeps E ok
