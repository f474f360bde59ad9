-- ===== src/Layer/Metadata.antt =====
-- oci/layer/tar_extract.go: the metadata that a path is given behind its extraction.
use umoci.Base.{
  ℕ, Bool, true, false, ◌&&◌, ◌||◌, String, Option, none, some, List, [], ◌∷◌, Text, str_eq,
  if◌then◌else◌,
}
use umoci.Base.Dict.{Dict}
use umoci.Base.Errors.{wrapped}
use umoci.Base.Result.{ok, err}
use umoci.Base.Program.{Program, done, fail, ◌>>=◌, ◌>>◌, attempt, explain}
use umoci.Unpriv.Os.{is_permission, is_not_supported}
use umoci.Layer.Header.{unmap_header, xattrs_of}
use umoci.Layer.Paths.{Components}
use umoci.Layer.Extractor.{
  TypeFlag, symlink, TarHeader, TarExtractor, Env, ignore_xattrs, header_error,
}

abbrev pub is_symlink_flag : TypeFlag → Bool
is_symlink_flag symlink = true
is_symlink_flag _ = false

unfoldable pub listed : List String → String → Bool
listed [] name = false
listed (n ∷ ns) name = str_eq n name || listed ns name

abbrev pub time_or : Option ℕ → ℕ → ℕ
time_or none t = t
time_or (some s) t = s

module _ {S : Type 0} (E : Env S) (te : TarExtractor S) where
  -- Lsetxattr, where an attribute that the file system or the user namespace refuses is left out.
  abbrev pub set_allowed : Components → String → Text → Program S (Unit {0})
  set_allowed path name value = attempt (te.fs_eval.lsetxattr path name value) >>= λ r. elim r [
    | ok _ ↦ done tt
    | err e ↦
        if (te.partial_rootless && is_permission e) || is_not_supported e
        then done tt
        else fail (wrapped "restore xattr metadata" e)
  ]

  -- One turn of the loop of restoreMetadata over the attributes of the header.
  unfoldable pub set_xattr : Components → String → Text → Program S (Unit {0})
  unfolding listed
  set_xattr path name value =
      if listed ignore_xattrs name
      then attempt (te.fs_eval.lgetxattr path name) >> done tt
      else set_allowed path name value

  -- The loop; Go goes through the map in any order.
  unfoldable pub set_xattrs : Components → Dict Text → Program S (Unit {0})
  unfolding set_xattr
  set_xattrs path [] = done tt
  set_xattrs path ((name, value) ∷ more) = set_xattr path name value >> set_xattrs path more

  -- Lclearxattrs, where attributes that are not supported are no error.
  unfoldable pub clear_xattrs : Components → Program S (Unit {0})
  clear_xattrs path = attempt (te.fs_eval.lclearxattrs path ignore_xattrs) >>= λ r. elim r [
    | ok _ ↦ done tt
    | err e ↦ if is_not_supported e then done tt else fail (wrapped "clear xattr metadata" e)
  ]

  -- Whether the path is a symbolic link now, or would be by its header.
  abbrev pub link_now : Components → TarHeader → Program S Bool
  link_now path hdr = attempt (te.fs_eval.lstat path) >>= λ r. elim r [
    | ok fi ↦ done fi.is_symlink
    | err e ↦ done (is_symlink_flag hdr.typeflag)
  ]

  -- time.Now, where the header has no time of modification.
  abbrev pub mtime_of : TarHeader → Program S ℕ
  mtime_of hdr = elim hdr.mod_time [ some t ↦ done t | none ↦ E.now ]

  abbrev pub set_owner : Components → TarHeader → Program S (Unit {0})
  set_owner path hdr =
      if te.map_options.rootless
      then done tt
      else explain "restore chown metadata" (E.lchown path hdr.owner.uid hdr.owner.gid)

  abbrev pub set_mode : Components → TarHeader → Bool → Program S (Unit {0})
  set_mode path hdr is_symlink =
      if is_symlink
      then done tt
      else explain "restore chmod metadata" (te.fs_eval.chmod path (E.file_info hdr).mode)

  -- restoreMetadata
  unfoldable pub restore_metadata : Components → TarHeader → Program S (Unit {0})
  unfolding set_xattrs clear_xattrs
  restore_metadata path hdr = link_now path hdr >>= λ is_symlink.
      set_owner path hdr >> set_mode path hdr is_symlink >> mtime_of hdr >>= λ mtime.
      clear_xattrs path
      >> set_xattrs path (xattrs_of E.proto hdr.owner)
      >> explain "restore lutimes metadata"
          (te.fs_eval.lutimes path (time_or hdr.access_time mtime) mtime)

  -- applyMetadata
  unfoldable pub apply_metadata : Components → TarHeader → Program S (Unit {0})
  unfolding restore_metadata unmap_header
  apply_metadata path hdr = elim (unmap_header E.proto te.map_options hdr.owner) [
    | err e ↦ fail (wrapped "unmap header" (header_error e))
    | ok owner ↦ restore_metadata path (record hdr { owner = owner })
  ]
