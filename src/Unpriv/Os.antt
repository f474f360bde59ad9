-- ===== src/Unpriv/Os.antt =====
-- The system calls of packages os, unix and pkg/system that pkg/unpriv makes, as a parameter, and the
-- errors that the code tells apart.
use umoci.Base.{ℕ, Bool, ◌||◌, String, List, Text}
use umoci.Base.Errors.{GoError, sentinel, is_error}
use umoci.Base.Program.{Program}

-- os.FileInfo; `mode` has the permission bits.
pub record FileInfo : Type 0 where
  pub name : Text
  pub mode : ℕ
  pub is_dir : Bool
  pub is_symlink : Bool
  pub atime : ℕ
  pub mtime : ℕ

-- An open file is known by a number.
pub record Os (S : Type 0) : Type 0 where
  pub lstat : Text → Program S FileInfo
  pub stat : Text → Program S FileInfo
  pub chmod : Text → ℕ → Program S (Unit {0})
  pub chtimes : Text → ℕ → ℕ → Program S (Unit {0})
  pub lutimes : Text → ℕ → ℕ → Program S (Unit {0})
  pub open_file : Text → Program S ℕ
  pub create : Text → Program S ℕ
  pub close : ℕ → Program S (Unit {0})
  pub readdir : ℕ → Program S (List FileInfo)
  pub readdirnames : ℕ → Program S (List Text)
  pub readlink : Text → Program S Text
  pub symlink : Text → Text → Program S (Unit {0})
  pub linkat : Text → Text → Program S (Unit {0})
  pub remove : Text → Program S (Unit {0})
  pub mkdir : Text → ℕ → Program S (Unit {0})
  pub mknod : Text → ℕ → ℕ → Program S (Unit {0})
  pub llistxattr : Text → Program S (List String)
  pub lremovexattr : Text → String → Program S (Unit {0})
  pub lsetxattr : Text → String → Text → Program S (Unit {0})
  pub lgetxattr : Text → String → Program S Text

-- errors.Is(err, os.ErrPermission), and the like.
abbrev pub is_permission : GoError → Bool
is_permission e = is_error e "permission denied"

abbrev pub is_not_exist : GoError → Bool
is_not_exist e = is_error e "file does not exist"

abbrev pub is_skip_dir : GoError → Bool
is_skip_dir e = is_error e "skip this directory"

abbrev pub is_not_supported : GoError → Bool
is_not_supported e = is_error e "operation not supported"

-- securejoin.IsNotExist
abbrev pub is_gone : GoError → Bool
is_gone e = is_not_exist e || is_error e "not a directory"

-- filepath.SkipDir
abbrev pub skip_dir : GoError
skip_dir = sentinel "skip this directory"

-- What a WalkFunc is given with the path: the file info, or the error that came instead.
pub data Visit : Type 0 where
  seen : FileInfo → Visit
  unseen : GoError → Visit

-- filepath.WalkFunc
abbrev pub WalkFunc : Type 0 → Type 0
WalkFunc S = Text → Visit → Program S (Unit {0})
