-- ===== src/Layer/Entry.antt =====
-- oci/layer/tar_extract.go: the extraction of one entry of a layer; oci/layer/unpack.go: of them all.
use umoci.Base.{
  String, ℕ, Bool, false, not, ◌&&◌, Option, none, some, List, [], ◌∷◌, ◌++◌, Text, has_prefix,
  if◌then◌else◌,
}
use umoci.Base.Dict.{Dict, insert}
use umoci.Base.Errors.{GoError, sentinel, wrapped}
use umoci.Base.Result.{Result, ok, err}
use umoci.Base.Program.{
  Program, done, fail, ◌>>=◌, ◌>>◌, attempt, returning, explain, finally, and_finally,
}
use umoci.Unpriv.Os.{FileInfo, is_gone, is_not_supported}
use umoci.Layer.Paths.{Components, same_path, clean_path, join_file, rel_path}
use umoci.Layer.Extractor.{
  dir, TarHeader, WhiteoutMode, oci_standard, overlay_fs, other_mode, TarExtractor, Env, is_loop,
  wh_prefix,
}
use umoci.Layer.Metadata.{restore_metadata, apply_metadata}
use umoci.Layer.Whiteout.{oci_whiteout, overlay_fs_whiteout}
use umoci.Layer.Create.{Place, is_dir_flag, is_link_flag, split_last, create_entry, close_last}

-- A path and the ancestors of it that are not the root.
unfoldable pub ancestors : Components → List Components
ancestors [] = []
ancestors (c ∷ up) = (c ∷ up) ∷ ancestors up

module _ {S : Type 0} (E : Env S) where
  module _ (te : TarExtractor S) where
    -- Whether a link's target is a directory; a target that is gone is none.
    abbrev pub leads_to_dir : Components → Program S Bool
    leads_to_dir target = attempt (te.fs_eval.lstat target) >>= λ q. elim q [
      | ok info ↦ done info.is_dir
      | err e ↦ if is_gone e then done false else fail e
    ]

    -- isDirlink
    unfoldable pub is_dirlink : Components → Components → Program S Bool
    unfolding rel_path
    is_dirlink root path =
        explain "read dirlink" (te.fs_eval.readlink path)
        >> attempt (E.secure_join te.fs_eval root (rel_path root path))
        >>= λ r. elim r [
          | ok target ↦ leads_to_dir target
          | err e ↦ if is_loop e then done false else fail (wrapped "sanitize old target" e)
        ]

    -- The safe path of the entry; the root is a directory, and nothing else.
    unfoldable pub entry_place : Components → TarHeader → Program S Place
    unfolding clean_path join_file
    entry_place root hdr =
        let name = clean_path hdr.owner.name in
        let parts = split_last name in
        if same_path name [] && not (is_dir_flag hdr.typeflag)
        then fail (sentinel "malicious tar entry -- refusing to change type of root directory")
        else (explain "sanitise symlinks in root" (E.secure_join te.fs_eval root parts.0) >>= λ d.
            done (record { dir = d; file = parts.1; path = join_file d parts.1 }))

    -- The extended attributes of the directory, as its header has them.
    unfoldable pub read_xattrs : Components → List String → Dict Text → Program S (Dict Text)
    unfolding insert
    read_xattrs d [] read = done read
    read_xattrs d (name ∷ names) read =
        explain "get xattr" (te.fs_eval.lgetxattr d name) >>= λ value.
        read_xattrs d names (insert name value read)

    -- Llistxattr, where attributes that are not supported are none.
    abbrev pub xattr_names : Components → Program S (List String)
    xattr_names d = attempt (te.fs_eval.llistxattr d) >>= λ r. elim r [
      | ok names ↦ done names
      | err e ↦ if is_not_supported e then done [] else fail (wrapped "get dirHdr.Xattrs" e)
    ]

    abbrev pub link_text : Result GoError Text → Text
    link_text (ok t) = t
    link_text (err e) = []

    -- The header that a directory's metadata is restored by: whatever it was made from, a directory.
    abbrev pub directory_header : TarHeader → List String → Dict Text → TarHeader
    directory_header hdr names attrs = record hdr {
      typeflag = dir;
      linkname = [];
      owner = record hdr.owner {
        xattrs = elim names [ [] ↦ hdr.owner.xattrs | n ∷ ns ↦ some attrs ];
      };
    }

    abbrev pub with_xattrs : Components → TarHeader → Program S (Option TarHeader)
    with_xattrs d hdr = xattr_names d >>= λ names.
        read_xattrs d names [] >>= λ attrs. done (some (directory_header hdr names attrs))

    -- The header of a directory as it is, to restore it by.
    abbrev pub describe : Components → FileInfo → Program S (Option TarHeader)
    describe d fi = attempt (te.fs_eval.readlink d) >>= λ target.
        explain "convert dirFi to dirHdr" (returning (E.file_info_header fi (link_text target)))
        >>= λ hdr. with_xattrs d hdr

    -- The header of the parent directory, where it exists and is not the entry.
    unfoldable pub parent_header : Place → Program S (Option TarHeader)
    unfolding read_xattrs same_path
    parent_header p = attempt (te.fs_eval.lstat p.dir) >>= λ r. elim r [
      | ok fi ↦ if same_path p.path p.dir then done none else describe p.dir fi
      | err e ↦ done none
    ]

    -- Whether the path is a link to a directory that the extractor keeps for a directory.
    abbrev pub kept_dirlink : Components → Place → TarHeader → FileInfo → Program S Bool
    kept_dirlink root p hdr fi =
        if te.keep_dirlinks && fi.is_symlink && is_dir_flag hdr.typeflag
        then explain "check is dirlink" (is_dirlink root p.path)
        else done false

    abbrev pub remove_unless : Bool → Place → Program S Bool
    remove_unless dirlink p =
        if dirlink && te.keep_dirlinks
        then done dirlink
        else (explain "clobber old path" (te.fs_eval.remove_all p.path) >> done dirlink)

    -- Removes what stands at the path, unless directory meets directory or, where the extractor keeps
    -- them, link to a directory; whether it is such a link is returned.
    unfoldable pub clobber : Components → Place → TarHeader → FileInfo → Program S Bool
    unfolding is_dirlink
    clobber root p hdr fi =
        if fi.is_dir && is_dir_flag hdr.typeflag
        then done false
        else (kept_dirlink root p hdr fi >>= λ dirlink. remove_unless dirlink p)

    -- The metadata of the entry, which a hard link shares with its target.
    abbrev pub finish_entry : Place → TarHeader → Program S (Unit {0})
    finish_entry p hdr =
        if is_link_flag hdr.typeflag
        then done tt
        else explain "apply hdr metadata" (apply_metadata E te p.path hdr)

    -- Creates the path, and gives it its metadata.
    abbrev pub create_at : ℕ → Components → Place → TarHeader → Bool → Program S (List Components)
    create_at fuel root p hdr dirlink = create_entry E te fuel root p hdr dirlink >>= λ left_open.
        finally (finish_entry p hdr) (close_last E te left_open)
        >> done (ancestors (rel_path root p.path))

    -- What Lstat told of the path, or the header where it told nothing.
    abbrev pub known_info : TarHeader → Result GoError FileInfo → FileInfo
    known_info hdr (ok fi) = fi
    known_info hdr (err e) = E.file_info hdr

    -- Extracts an entry that is no whiteout; the upper paths it adds are returned.
    unfoldable pub unpack_path : ℕ → Components → Place → TarHeader → Program S (List Components)
    unfolding clobber create_entry apply_metadata ancestors rel_path
    unpack_path fuel root p hdr = attempt (te.fs_eval.lstat p.path) >>= λ r.
        explain "mkdir parent" (te.fs_eval.mkdir_all p.dir 0o777)
        >> clobber root p hdr (known_info hdr r)
        >>= create_at fuel root p hdr

    -- A whiteout, by the mode of the extractor.
    abbrev pub unpack_whiteout : WhiteoutMode → Components → Place → Program S (List Components)
    unpack_whiteout oci_standard root p = oci_whiteout te root p.dir p.file >> done []
    unpack_whiteout overlay_fs root p = overlay_fs_whiteout te E p.dir p.file >> done []
    unpack_whiteout (other_mode m) root p = fail (sentinel "unknown whiteout mode")

    -- Extracts an entry at its place: a whiteout, or a path.
    unfoldable pub unpack_at : ℕ → Components → Place → TarHeader → Program S (List Components)
    unfolding unpack_path oci_whiteout overlay_fs_whiteout has_prefix
    unpack_at fuel root p hdr =
        if has_prefix p.file wh_prefix
        then unpack_whiteout te.whiteout_mode root p
        else unpack_path fuel root p hdr

  -- A program of the file system, as one that the extractor belongs to.
  abbrev pub on_disk : {A : Type 0} → Program S A → Program (TarExtractor S × S) A
  on_disk m (te, s) = let r = m s in (r.0, (te, r.1))

  abbrev pub current : Program (TarExtractor S × S) (TarExtractor S)
  current (te, s) = (ok te, (te, s))

  abbrev pub add_upper : List Components → Program (TarExtractor S × S) (Unit {0})
  add_upper added (te, s) = (ok tt, (record te { upper_paths = added ++ te.upper_paths }, s))

  -- What is deferred: the parent directory gets its metadata back.
  abbrev pub restore_parent : TarExtractor S → Place → Option TarHeader → Program S (Unit {0})
  restore_parent te p none = done tt
  restore_parent te p (some hdr) =
      explain "restore parent directory" (restore_metadata E te p.dir hdr)

  -- UnpackEntry, with the fuel of Copy.
  unfoldable pub unpack_entry : ℕ → Components → TarHeader → Program (TarExtractor S × S) (Unit {0})
  unfolding entry_place parent_header unpack_at restore_metadata
  unpack_entry fuel root hdr = current >>= λ te. on_disk (entry_place te root hdr) >>= λ p.
      on_disk (parent_header te p) >>= λ kept.
      and_finally (on_disk (unpack_at te fuel root p hdr) >>= add_upper)
        (on_disk (restore_parent te p kept))

  -- UnpackLayer, for the entries of a layer that the tar reader gives, and the error it ends with.
  unfoldable pub unpack_layer :
      ℕ → Components → List TarHeader → Option GoError → Program (TarExtractor S × S) (Unit {0})
  unfolding unpack_entry
  unpack_layer fuel root [] none = done tt
  unpack_layer fuel root [] (some e) = fail (wrapped "read next entry" e)
  unpack_layer fuel root (hdr ∷ hdrs) last =
      explain "unpack entry" (unpack_entry fuel root hdr) >> unpack_layer fuel root hdrs last
