-- ===== src/Layer/Create.antt =====
-- oci/layer/tar_extract.go: how the path of an entry is created; pkg/system/copy.go: Copy.
use Prim.Native.Nat.{bit_or}
use umoci.Base.{
  ℕ, zero, suc, ◌+◌, ◌%◌, Bool, true, false, ◌==◌, Option, none, some, [], ◌∷◌, Text, if◌then◌else◌,
}
use umoci.Base.Errors.{GoError, sentinel, wrapped}
use umoci.Base.Result.{ok, err}
use umoci.Base.Program.{Program, done, fail, ◌>>=◌, ◌>>◌, attempt, explain}
use umoci.FilePath.{dot}
use umoci.Unpriv.Trees.{out_of_fuel}
use umoci.Layer.Paths.{Components, clean_path, join_file}
use umoci.Layer.Extractor.{
  TypeFlag, reg, link, symlink, char, block, dir, fifo, custom, TarHeader, TarExtractor, Env,
  is_interrupted, tarmode,
}

abbrev pub is_dir_flag : TypeFlag → Bool
is_dir_flag dir = true
is_dir_flag _ = false

abbrev pub is_link_flag : TypeFlag → Bool
is_link_flag link = true
is_link_flag _ = false

-- The directory and the last component of a clean path; the root is "." in itself.
abbrev pub split_last : Components → Components × Text
split_last [] = ([], dot)
split_last (c ∷ up) = (up, c)

-- filepath.Split of a hard link's clean target.
unfoldable pub link_parts : Text → Components × Text
unfolding clean_path
link_parts linkname = elim (clean_path linkname) [ [] ↦ ([], []) | c ∷ up ↦ (up, c) ]

-- The path of an entry on the file system.
pub record Place : Type 0 where
  pub dir : Components
  pub file : Text
  pub path : Components

module _ {S : Type 0} (E : Env S) where
  -- system.Copy, with fuel for the interrupted calls.
  unfoldable pub copy : ℕ → ℕ → ℕ → Program S (ℕ × Option GoError)
  copy zero fh written = fail out_of_fuel
  copy (suc fuel) fh written = E.copy_buffer fh >>= λ r. elim r.1 [
    | none ↦ done (written + r.0, none)
    | some e ↦
        if is_interrupted e then copy fuel fh (written + r.0) else done (written + r.0, some e)
  ]

  module _ (te : TarExtractor S) where
    -- The data of a regular file: all of it, or an error.
    unfoldable pub write_data : ℕ → TarHeader → ℕ → Program S (Unit {0})
    unfolding copy
    write_data fuel hdr fh = copy fuel fh 0 >>= λ r. elim r.1 [
      | some e ↦ fail (
          wrapped "unpack to regular file" (if r.0 == hdr.size then e else wrapped "short write" e))
      | none ↦
          if r.0 == hdr.size
          then explain "close unpacked regular file" (E.close_file fh)
          else fail (wrapped "unpack to regular file" (sentinel "short write"))
    ]

    -- Makes a device or a FIFO.
    abbrev pub make_node : Place → TarHeader → Program S (Option ℕ)
    make_node p hdr =
        explain "mknod" (
          te.fs_eval.mknod p.path (bit_or (tarmode hdr.typeflag) hdr.mode % 4294967296)
            (E.mkdev hdr.devmajor hdr.devminor))
        >> done none

    -- An empty file, which stays open.
    abbrev pub make_empty : Place → Program S (Option ℕ)
    make_empty p = explain "create rootless block" (te.fs_eval.create p.path) >>= λ fh.
        attempt (E.chmod_file fh 0) >>= λ r. elim r [
          | ok _ ↦ done (some fh)
          | err e ↦ attempt (E.close_file fh) >> fail (wrapped "chmod 0 rootless block" e)
        ]

    -- A device, or an empty file without the right to make one.
    abbrev pub make_device : Place → TarHeader → Program S (Option ℕ)
    make_device p hdr = if te.partial_rootless then make_empty p else make_node p hdr

    -- The path that a hard link leads to: its last component is not followed.
    unfoldable pub hard_link_target : Components → Text → Program S Components
    unfolding link_parts join_file
    hard_link_target root linkname =
        explain "sanitise hardlink target in root"
          (E.secure_join te.fs_eval root (link_parts linkname).0)
        >>= λ d. done (join_file d (link_parts linkname).1)

    abbrev pub make_regular : ℕ → Place → TarHeader → Program S (Option ℕ)
    make_regular fuel p hdr = explain "create regular" (te.fs_eval.create p.path) >>= λ fh.
        attempt (write_data fuel hdr fh) >>= λ r. elim r [
          | ok _ ↦ done none
          | err e ↦ attempt (E.close_file fh) >> fail e
        ]

    abbrev pub make_dir : Place → Bool → Program S (Option ℕ)
    make_dir p dirlink =
        if dirlink
        then done none
        else (explain "mkdirall" (te.fs_eval.mkdir_all p.path 0o777) >> done none)

    abbrev pub make_hard_link : Components → Place → TarHeader → Program S (Option ℕ)
    make_hard_link root p hdr = hard_link_target root hdr.linkname >>= λ target.
        explain "link" (te.fs_eval.link target p.path) >> done none

    -- Creates the path by its type. A file that is still open is returned, to be closed at the end; the
    -- data of a regular file is in it when it is closed, and to close it once more does nothing.
    unfoldable pub create_entry : ℕ → Components → Place → TarHeader → Bool → Program S (Option ℕ)
    unfolding write_data hard_link_target
    create_entry fuel root p hdr dirlink = elim hdr.typeflag [
      | reg ↦ make_regular fuel p hdr
      | dir ↦ make_dir p dirlink
      | link ↦ make_hard_link root p hdr
      | symlink ↦ explain "link" (te.fs_eval.symlink hdr.linkname p.path) >> done none
      | char ↦ make_device p hdr
      | block ↦ make_device p hdr
      | fifo ↦ make_node p hdr
      | custom f ↦ fail (sentinel "unknown typeflag")
    ]

    abbrev pub close_last : Option ℕ → Program S (Unit {0})
    close_last none = done tt
    close_last (some fh) = E.close_file fh
