-- ===== src/Layer/Whiteout.antt =====
-- oci/layer/tar_extract.go: the entries of a layer that remove paths.
use umoci.Base.{Bool, ◌&&◌, ◌||◌, [], ◌∷◌, Text, text_eq, has_prefix, codes, if◌then◌else◌}
use umoci.Base.Errors.{wrapped}
use umoci.Base.Result.{ok, err}
use umoci.Base.Program.{Program, done, fail, ◌>>=◌, ◌>>◌, attempt, explain}
use umoci.Unpriv.Os.{is_not_exist, is_gone, skip_dir, Visit, seen, unseen}
use umoci.Layer.Paths.{Components, same_path, is_member, join_file, rel_path}
use umoci.Layer.Extractor.{TarExtractor, Env, wh_prefix, wh_opaque}

-- strings.TrimPrefix
unfoldable pub drop_prefix : Text → Text → Text
drop_prefix s [] = s
drop_prefix [] (p ∷ ps) = []
drop_prefix (c ∷ s) (p ∷ ps) = drop_prefix s ps

abbrev pub trim_prefix : Text → Text → Text
trim_prefix s prefix = if has_prefix s prefix then drop_prefix s prefix else s

abbrev pub is_opaque : Text → Bool
is_opaque file = text_eq file wh_opaque

-- The path that a whiteout removes, or all that is in it where the whiteout is opaque.
unfoldable pub whiteout_target : Components → Text → Components
unfolding drop_prefix has_prefix join_file text_eq
whiteout_target dir file =
    if is_opaque file then dir else join_file dir (trim_prefix file wh_prefix)

module _ {S : Type 0} (te : TarExtractor S) where
  -- The function that ociWhiteout walks with.
  unfoldable pub remove_lower :
      Components → Bool → Components → Components → Visit → Program S (Unit {0})
  unfolding is_member rel_path same_path
  remove_lower root opaque target subpath (unseen e) = fail (if is_not_exist e then skip_dir else e)
  remove_lower root opaque target subpath (seen info) =
      if is_member te.upper_paths (rel_path root subpath) || (opaque && same_path target subpath)
      then done tt
      else explain "whiteout subpath" (te.fs_eval.remove_all subpath)
        >> (if info.is_dir then fail skip_dir else done tt)

  -- ociWhiteout
  unfoldable pub oci_whiteout : Components → Components → Text → Program S (Unit {0})
  unfolding whiteout_target remove_lower
  oci_whiteout root dir file =
      let target = whiteout_target dir file in
      attempt (te.fs_eval.lstat target) >>= λ r. elim r [
        | ok _ ↦
            explain "whiteout remove"
              (te.fs_eval.walk target (remove_lower root (is_opaque file) target))
        | err e ↦ if is_gone e then done tt else fail (wrapped "check whiteout target" e)
      ]

  -- os.RemoveAll, where a path that is gone is no error.
  abbrev pub remove_old : Env S → Components → Program S (Unit {0})
  remove_old E path = attempt (E.os_remove_all path) >>= λ r. elim r [
    | ok _ ↦ done tt
    | err e ↦
        if is_not_exist e then done tt else fail (wrapped "couldn't create overlayfs whiteout" e)
  ]

  -- The device 0:0 in place of the path.
  abbrev pub replace_by_device : Env S → Components → Program S (Unit {0})
  replace_by_device E path =
      remove_old E path
      >> explain "couldn't create overlayfs whiteout" (te.fs_eval.mknod path 0o020666 (E.mkdev 0 0))

  -- overlayFSWhiteout
  unfoldable pub overlay_fs_whiteout : Env S → Components → Text → Program S (Unit {0})
  unfolding whiteout_target
  overlay_fs_whiteout E dir file =
      let target = whiteout_target dir file in
      if is_opaque file
      then explain "couldn't set overlayfs whiteout attr"
          (te.fs_eval.lsetxattr dir "trusted.overlay.opaque" (codes "y"))
      else replace_by_device E target
