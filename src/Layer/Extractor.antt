-- ===== src/Layer/Extractor.antt =====
-- oci/layer/tar_extract.go: the extractor of a layer, and the names it knows.
use umoci.Base.{ℕ, Bool, ◌||◌, String, Option, List, [], ◌∷◌, Text, codes, if◌then◌else◌}
use umoci.Base.Errors.{GoError, sentinel, wrapped, is_error}
use umoci.Base.Int.{ℤ}
use umoci.Base.Result.{Result}
use umoci.Base.Program.{Program}
use umoci.FsEval.{FsEval}
use umoci.Unpriv.Os.{FileInfo}
use umoci.Layer.Header.{Header, MapOptions, HeaderError, map_uid, map_gid, payload_error, Proto}
use umoci.Layer.Paths.{Components}

-- The type flags of package archive/tar; TypeReg and TypeRegA are one.
pub data TypeFlag : Type 0 where
  reg link symlink char block dir fifo : TypeFlag
  custom : ℕ → TypeFlag

-- tar.Header, without the name, which Header has; a zero time is `none`.
pub record TarHeader : Type 0 where
  pub owner : Header
  pub typeflag : TypeFlag
  pub linkname : Text
  pub size : ℕ
  pub mode : ℕ
  pub mod_time : Option ℕ
  pub access_time : Option ℕ
  pub devmajor : ℕ
  pub devminor : ℕ

-- WhiteoutMode, a Go int.
pub data WhiteoutMode : Type 0 where
  oci_standard overlay_fs : WhiteoutMode
  other_mode : ℤ → WhiteoutMode

-- UnpackOptions, for one layer.
pub record UnpackOptions : Type 0 where
  pub map_options : MapOptions
  pub keep_dirlinks : Bool
  pub whiteout_mode : WhiteoutMode

-- TarExtractor, without the flag that keeps a warning from coming twice. A path of `upper_paths` is
-- relative to the root.
pub record TarExtractor (S : Type 0) : Type 0 where
  pub map_options : MapOptions
  pub partial_rootless : Bool
  pub fs_eval : FsEval Components S
  pub upper_paths : List Components
  pub keep_dirlinks : Bool
  pub whiteout_mode : WhiteoutMode

-- NewTarExtractor; whether the process is in a user namespace is a parameter.
abbrev pub new_tar_extractor :
    {S : Type 0} → Bool → FsEval Components S → FsEval Components S → UnpackOptions → TarExtractor S
new_tar_extractor in_user_namespace default rootless opt = record {
  map_options = opt.map_options;
  partial_rootless = opt.map_options.rootless || in_user_namespace;
  fs_eval = if opt.map_options.rootless then rootless else default;
  upper_paths = [];
  keep_dirlinks = opt.keep_dirlinks;
  whiteout_mode = opt.whiteout_mode;
}

-- The calls of other packages: SecureJoinVFS, tar.FileInfoHeader, tar.Header.FileInfo, os.Lchown,
-- os.RemoveAll, time.Now, unix.Mkdev, the files that are open, io.CopyBuffer from the entry to a file,
-- and the protobuf encoding.
pub record Env (S : Type 0) : Type 0 where
  pub secure_join : FsEval Components S → Components → Components → Program S Components
  pub file_info_header : FileInfo → Text → Result GoError TarHeader
  pub file_info : TarHeader → FileInfo
  pub lchown : Components → ℤ → ℤ → Program S (Unit {0})
  pub os_remove_all : Components → Program S (Unit {0})
  pub now : Program S ℕ
  pub mkdev : ℕ → ℕ → ℕ
  pub close_file : ℕ → Program S (Unit {0})
  pub chmod_file : ℕ → ℕ → Program S (Unit {0})
  pub copy_buffer : ℕ → Program S (ℕ × Option GoError)
  pub proto : Proto

-- errors.Is(err, unix.EINTR), and the like.
abbrev pub is_interrupted : GoError → Bool
is_interrupted e = is_error e "interrupted system call"

abbrev pub is_loop : GoError → Bool
is_loop e = is_error e "too many levels of symbolic links"

-- ignoreXattrs
abbrev pub ignore_xattrs : List String
ignore_xattrs =
    "security.selinux" ∷ "system.nfs4_acl" ∷ "trusted.overlay.opaque" ∷ "trusted.overlay.redirect"
    ∷ "trusted.overlay.origin" ∷ "trusted.overlay.impure" ∷ "trusted.overlay.nlink"
    ∷ "trusted.overlay.upper" ∷ "trusted.overlay.metacopy" ∷ []

-- whPrefix
abbrev pub wh_prefix : Text
wh_prefix = codes ".wh."

-- whOpaque
abbrev pub wh_opaque : Text
wh_opaque = codes ".wh..wh..opq"

-- system.Tarmode
abbrev pub tarmode : TypeFlag → ℕ
tarmode symlink = 0o120000
tarmode char = 0o020000
tarmode block = 0o060000
tarmode fifo = 0o010000
tarmode dir = 0o040000
tarmode reg = 0
tarmode link = 0
tarmode (custom f) = 0

abbrev pub header_error : HeaderError → GoError
header_error (map_uid u) =
    wrapped "map uid to host" (sentinel "container id cannot be mapped to a host id")
header_error (map_gid u) =
    wrapped "map gid to host" (sentinel "container id cannot be mapped to a host id")
header_error (payload_error e) = wrapped "marshal rootlesscontainers payload" e
