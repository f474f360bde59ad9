-- ===== src/CasDir/Engine.antt =====
-- oci/cas/dir/dir.go: dirEngine with its operations, Open and Create.
use umoci.Base.{
  Bool, true, false, ◌&&◌, String, str_eq, Option, none, some, List, [], ◌∷◌, ◌++◌, Text, length,
  if◌then◌else◌,
}
use umoci.Base.Errors.{GoError, sentinel, wrapped, is_error, is_same}
use umoci.Base.Int.{ℤ, pos}
use umoci.Base.Result.{Result, ok, err, wrap, ◌>>=◌ as ◌>>=ʳ◌}
use umoci.Base.Program.{Program, done, fail, ◌>>=◌, ◌>>◌, attempt, returning, explain, finally}
use umoci.Image.{Index}
use umoci.Cas
use umoci.Unpriv.Os.{skip_dir}
use umoci.CasDir.Disk.{Location, File, Disk, Digests, Json}

-- dirEngine, without its path, which never changes.
pub record DirEngine : Type 0 where
  pub temp : Option (Location × File)

-- ImageLayoutVersion, blobDirectory, indexFile and layoutFile
abbrev pub image_layout_version : String
image_layout_version = "1.0.0"

abbrev pub blob_directory : String
blob_directory = "blobs"

abbrev pub index_file : String
index_file = "index.json"

abbrev pub layout_file : String
layout_file = "oci-layout"

-- cas.BlobAlgorithm
abbrev pub blob_algorithm : String
blob_algorithm = "sha256"

abbrev pub is_not_exist : GoError → Bool
is_not_exist e = is_error e "file does not exist"

abbrev pub err_invalid : GoError
err_invalid = sentinel "invalid image detected"

-- A missing file makes the image invalid.
abbrev pub invalid_if_missing : GoError → GoError
invalid_if_missing e = if is_not_exist e then err_invalid else e

-- The directory of the blobs, below the root.
abbrev pub blob_dir : Location → Location
blob_dir root = blob_algorithm ∷ blob_directory ∷ root

-- PutIndex sets the media type.
abbrev pub typed : Index → Index
typed i = record i { media_type = "application/vnd.oci.image.index.v1+json" }

unfoldable pub same_location : Location → Location → Bool
same_location [] [] = true
same_location (c ∷ p) (d ∷ q) = str_eq c d && same_location p q
same_location [] (d ∷ q) = false
same_location (c ∷ p) [] = false

module _ {S C : Type 0} (O : Disk S C) (G : Digests) (J : Json C) (root : Location) where
  abbrev pub State : Type 0
  State = DirEngine × S

  -- A call of the disk, the engine staying as it is.
  abbrev pub on_disk : {A : Type 0} → Program S A → Program State A
  on_disk m (e, s) = let r = m s in (r.0, (e, r.1))

  abbrev pub engine : Program State DirEngine
  engine (e, s) = (ok e, (e, s))

  abbrev pub set_temp : Location → File → Program State (Unit {0})
  set_temp dir lock (e, s) = (ok tt, (record e { temp = some (dir, lock) }, s))

  -- The path of a digest that was validated.
  abbrev pub path_of_valid : String → Result GoError (Unit {0}) → Result GoError Location
  path_of_valid digest (err e) = err (wrapped "invalid digest" e)
  path_of_valid digest (ok _) =
      if str_eq (G.algorithm digest) blob_algorithm
      then ok (G.hex digest ∷ blob_algorithm ∷ blob_directory ∷ [])
      else err (sentinel "unsupported algorithm")

  -- blobPath, relative to the root of the image.
  unfoldable pub blob_path : String → Result GoError Location
  blob_path digest = path_of_valid digest (G.validate digest)

  -- ensureTempDir: the temporary directory, locked; made when it is first needed.
  unfoldable pub make_temp_dir : Program State Location
  make_temp_dir = on_disk (explain "create tempdir" (O.temp_dir root ".umoci-")) >>= λ dir.
      on_disk (explain "open tempdir for lock" (O.open_file dir)) >>= λ lock.
      on_disk (explain "lock tempdir" (O.flock lock)) >> set_temp dir lock >> done dir

  abbrev pub temp_dir_of : Option (Location × File) → Program State Location
  temp_dir_of none = make_temp_dir
  temp_dir_of (some (dir, lock)) = done dir

  unfoldable pub ensure_temp_dir : Program State Location
  unfolding make_temp_dir
  ensure_temp_dir = engine >>= λ e. temp_dir_of e.temp

  -- Writes a temporary file, and moves it to its path, if there is one. The messages of the code
  -- name the file as a blob or as an index. It is closed once more at the end, which counts only where
  -- an error came before.
  unfoldable pub write_and_move :
      Location → String → C → Result GoError Location → Program S (Unit {0})
  write_and_move dir prefix content target =
      explain "create temporary file" (O.temp_file dir prefix) >>= λ fh.
      finally
        (explain "write temporary file" (O.write fh content)
          >> explain "close temporary file" (O.close fh)
          >> explain "compute name" (returning target)
          >>= λ path. explain "rename temporary file" (O.rename fh.path path))
        (O.close fh)

  abbrev pub blob_location : String → Result GoError Location
  blob_location digest = blob_path digest >>=ʳ λ path. ok (path ++ root)

  -- PutBlob
  unfoldable pub put_blob : Text → Program State (String × ℤ)
  unfolding ensure_temp_dir write_and_move blob_path
  put_blob content = explain "ensure tempdir" ensure_temp_dir >>= λ dir.
      on_disk (write_and_move dir "blob-" (J.of_text content) (blob_location (G.sha256 content)))
      >> done (G.sha256 content, pos (length content))

  -- GetBlob: what there is to read from the file. The reader that verifies it is Hardening's.
  unfoldable pub get_blob : String → State → Result GoError Text
  unfolding blob_path
  get_blob digest (e, s) = wrap (wrapped "compute blob path") (blob_location digest) >>=ʳ λ path.
      wrap (wrapped "open blob") (O.read_file path s) >>=ʳ λ c. ok (J.to_text c)

  -- StatBlob, which looks from the working directory.
  unfoldable pub stat_blob : String → State → Result GoError Bool
  unfolding blob_path
  stat_blob digest (e, s) = wrap (wrapped "compute blob path") (blob_path digest) >>=ʳ λ path.
      elim (O.stat_dir path s) [
        | ok _ ↦ ok true
        | err e' ↦ if is_not_exist e' then ok false else err (wrapped "stat blob path" e')
      ]

  -- PutIndex
  unfoldable pub put_index : Index → Program State (Unit {0})
  unfolding ensure_temp_dir write_and_move
  put_index i = explain "ensure tempdir" ensure_temp_dir >>= λ dir.
      on_disk (write_and_move dir "index-" (J.encode_index (typed i)) (ok (index_file ∷ root)))

  -- The index that a file's content stands for.
  abbrev pub index_read : Result GoError C → Result GoError Index
  index_read (err e) = err (wrapped "read index" (invalid_if_missing e))
  index_read (ok content) = wrap (wrapped "parse index") (J.decode_index content)

  -- GetIndex
  unfoldable pub get_index : State → Result GoError Index
  get_index (e, s) = index_read (O.read_file (index_file ∷ root) s)

  -- os.Remove, where a file that is gone is no error.
  unfoldable pub remove_blob : Location → Program S (Unit {0})
  remove_blob path = attempt (O.remove path) >>= λ r. elim r [
    | ok _ ↦ done tt
    | err e ↦ if is_not_exist e then done tt else fail (wrapped "remove blob" e)
  ]

  -- DeleteBlob
  unfoldable pub delete_blob : String → Program State (Unit {0})
  unfolding blob_path remove_blob
  delete_blob digest = explain "compute blob path" (returning (blob_location digest)) >>= λ path.
      on_disk (remove_blob path)

  -- The digest of each path that is walked, except for the directory itself.
  unfoldable pub digests_of : List Location → List String
  unfolding same_location
  digests_of [] = []
  digests_of ([] ∷ paths) = digests_of paths
  digests_of ((name ∷ up) ∷ paths) =
      let rest = digests_of paths in
      if same_location (name ∷ up) (blob_dir root)
      then rest
      else G.new_from_hex blob_algorithm name ∷ rest

  -- ListBlobs
  unfoldable pub list_blobs : State → Result GoError (List String)
  unfolding digests_of
  list_blobs (e, s) =
      wrap (wrapped "walk blobdir") (O.walk (blob_dir root) s) >>=ʳ λ paths. ok (digests_of paths)

  -- What cleanPath does once it has the lock.
  abbrev pub remove_locked : Location → Program S (Unit {0})
  remove_locked path = attempt (O.remove_all path) >>= λ r. elim r [
    | ok _ ↦ done tt
    | err e ↦ if is_not_exist e then done tt else fail skip_dir
  ]

  abbrev pub clean_open : Location → File → Program S (Unit {0})
  clean_open path lock = attempt (O.flock lock) >>= λ r. elim r [
    | ok _ ↦ finally (remove_locked path) (O.funlock lock)
    | err e ↦ fail skip_dir
  ]

  -- cleanPath; a path that is gone gives no file, which cannot be locked.
  unfoldable pub clean_path : Location → Program S (Unit {0})
  clean_path path = attempt (O.open_file path) >>= λ r. elim r [
    | ok lock ↦ finally (clean_open path lock) (O.close lock)
    | err e ↦ fail (if is_not_exist e then skip_dir else wrapped "open for locking" e)
  ]

  -- The loop of Clean; a path that is skipped is no error.
  unfoldable pub clean_paths : List Location → Program S (Unit {0})
  unfolding clean_path
  clean_paths [] = done tt
  clean_paths (path ∷ paths) = attempt (clean_path path) >>= λ r. elim r [
    | ok _ ↦ clean_paths paths
    | err e ↦ if is_same e "skip this directory" then clean_paths paths else fail e
  ]

  -- Clean
  unfoldable pub clean : Program State (Unit {0})
  unfolding clean_paths
  clean = on_disk (explain "glob .umoci-*" (λ s. (O.glob root ".umoci-*" s, s)) >>= clean_paths)

  -- The engine as an implementation of the interface.
  abbrev pub dir_engine : Cas.Engine
  dir_engine = record {
    State = State;
    put_blob = put_blob;
    get_blob = get_blob;
    stat_blob = stat_blob;
    put_index = put_index;
    get_index = get_index;
    delete_blob = delete_blob;
    list_blobs = list_blobs;
    clean = clean;
  }
