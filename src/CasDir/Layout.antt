-- ===== src/CasDir/Layout.antt =====
-- oci/cas/dir/dir.go: Open and Create, and Close.
use umoci.Base.{Bool, true, false, not, String, str_eq, Option, none, some, [], ◌∷◌, if◌then◌else◌}
use umoci.Base.Errors.{GoError, wrapped}
use umoci.Base.Result.{Result, ok, err, wrap, ◌>>=◌ as ◌>>=ʳ◌}
use umoci.Base.Program.{Program, done, ◌>>=◌, ◌>>◌, explain, finally}
use umoci.Image.{Index}
use umoci.CasDir.Disk.{Location, File, Disk, Digests, Json}
use umoci.CasDir.Engine.{
  DirEngine, image_layout_version, blob_directory, index_file, layout_file, err_invalid,
  invalid_if_missing, blob_dir, typed, on_disk, engine,
}

-- The index of a new image.
abbrev pub default_index : Index
default_index =
    typed (record { schema_version = 2; media_type = ""; manifests = []; annotations = none })

abbrev pub same_bool : Bool → Bool → Bool
same_bool true b = b
same_bool false b = not b

module _ {S C : Type 0} (O : Disk S C) (G : Digests) (J : Json C) (root : Location) where
  abbrev pub close_temp : Option (Location × File) → Program S (Unit {0})
  close_temp none = done tt
  close_temp (some (dir, lock)) =
      explain "unlock tempdir" (O.funlock lock)
      >> explain "close tempdir" (O.close lock)
      >> explain "remove tempdir" (O.remove_all dir)

  -- Close
  unfoldable pub close : Program (DirEngine × S) (Unit {0})
  close = engine O G J root >>= λ e. on_disk O G J root (close_temp e.temp)

  -- One of the parts that validate looks for.
  abbrev pub require_kind : String → Location → Bool → S → Result GoError (Unit {0})
  require_kind message path is_dir s = elim (O.stat_dir path s) [
    | err e ↦ err (wrapped message (invalid_if_missing e))
    | ok d ↦ if same_bool d is_dir then ok tt else err (wrapped message err_invalid)
  ]

  -- validate
  unfoldable pub validate : S → Result GoError (Unit {0})
  validate s = elim (O.read_file (layout_file ∷ root) s) [
    | err e ↦ err (wrapped "read oci-layout" (invalid_if_missing e))
    | ok content ↦ wrap (wrapped "parse oci-layout") (J.decode_layout content) >>=ʳ λ version.
        if str_eq version image_layout_version
        then (require_kind "check blobdir" (blob_directory ∷ root) true s >>=ʳ λ u.
            require_kind "check index" (index_file ∷ root) false s)
        else err (wrapped "layout version is not supported" err_invalid)
  ]

  -- Open
  unfoldable pub open_engine : S → Result GoError (DirEngine × S)
  unfolding validate
  open_engine s = wrap (wrapped "validate") (validate s) >>=ʳ λ u. ok (record { temp = none }, s)

  -- A file that Create writes. It is closed when Create ends.
  abbrev pub write_new : String → Location → C → Program S (Unit {0}) → Program S (Unit {0})
  write_new message path content next = explain message (O.create path) >>= λ fh.
      finally (explain message (O.write fh content) >> next) (O.close fh)

  -- Create; the parent of a path that has none is the working directory.
  unfoldable pub create : Program S (Unit {0})
  create =
      make_parent root
      >> explain "mkdir" (O.mkdir root 0o755)
      >> explain "mkdir blobdir" (O.mkdir (blob_directory ∷ root) 0o755)
      >> explain "mkdir algorithm" (O.mkdir (blob_dir root) 0o755)
      >> write_new "create index.json" (index_file ∷ root) (J.encode_index default_index) (
          write_new "create oci-layout" (layout_file ∷ root) (J.encode_layout image_layout_version)
            (done tt))
    where
      make_parent : Location → Program S (Unit {0})
      make_parent [] = done tt
      make_parent (c ∷ []) = done tt
      make_parent (c ∷ d ∷ up) = explain "mkdir parent" (O.mkdir_all (d ∷ up) 0o755)
