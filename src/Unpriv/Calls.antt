-- ===== src/Unpriv/Calls.antt =====
-- pkg/unpriv/unpriv.go: the wrapped system calls.
use Prim.Native.Nat.{bit_or, bit_and}
use umoci.Base.{ℕ, ◌==◌, ◌%◌, String, List, Text, if◌then◌else◌}
use umoci.Base.Int.{u32_mod}
use umoci.Base.Program.{Program, ◌>>=◌, ◌>>◌, explain, finally}
use umoci.Unpriv.Os.{FileInfo, Os}
use umoci.Unpriv.Wrap.{fi_restore, wrap}

module _ {S : Type 0} (O : Os S) where
  -- What Open does to a path that can be reached.
  unfoldable pub open_reached : Text → Program S ℕ
  unfolding fi_restore
  open_reached path = explain "lstat file" (O.lstat path) >>= λ fi.
      if bit_and fi.mode 0o400 == 0o400
      then O.open_file path
      else (explain "chmod +r" (O.chmod path (bit_or fi.mode 0o400))
          >> finally (O.open_file path) (fi_restore O path fi))

  unfoldable pub open_file : Text → Program S ℕ
  unfolding wrap open_reached
  open_file path = explain "unpriv.open" (wrap O path open_reached)

  -- What Readdir does to a path that can be reached.
  unfoldable pub readdir_reached : Text → Program S (List FileInfo)
  unfolding fi_restore
  readdir_reached path = explain "lstat dir" (O.lstat path) >>= λ fi.
      explain "chmod +rx" (O.chmod path (bit_or fi.mode 0o500))
      >> finally
          (explain "opendir" (O.open_file path) >>= λ fh. finally (O.readdir fh) (O.close fh))
          (fi_restore O path fi)

  unfoldable pub readdir : Text → Program S (List FileInfo)
  unfolding wrap readdir_reached
  readdir path = explain "unpriv.readdir" (wrap O path readdir_reached)

  unfoldable pub create : Text → Program S ℕ
  unfolding wrap
  create path = explain "unpriv.create" (wrap O path (λ path. O.create path))

  unfoldable pub lstat : Text → Program S FileInfo
  unfolding wrap
  lstat path = explain "unpriv.lstat" (wrap O path (λ path. O.lstat path))

  -- Lstatx gives the raw form of the same call.
  unfoldable pub lstatx : Text → Program S FileInfo
  unfolding wrap
  lstatx path = explain "unpriv.lstatx" (wrap O path (λ path. O.lstat path))

  unfoldable pub readlink : Text → Program S Text
  unfolding wrap
  readlink path = explain "unpriv.readlink" (wrap O path (λ path. O.readlink path))

  -- Symlink, whose first argument is the target.
  unfoldable pub symlink : Text → Text → Program S (Unit {0})
  unfolding wrap
  symlink target linkname =
      explain "unpriv.symlink" (wrap O linkname (λ name. O.symlink target name))

  -- Link, with the target wrapped inside the link's name.
  unfoldable pub link : Text → Text → Program S (Unit {0})
  unfolding wrap
  link target linkname = explain "unpriv.link" (
      wrap O linkname
        (λ name. explain "unpriv.wrap target" (wrap O target (λ old. O.linkat old name))))

  unfoldable pub chmod : Text → ℕ → Program S (Unit {0})
  unfolding wrap
  chmod path mode = explain "unpriv.chmod" (wrap O path (λ path. O.chmod path mode))

  unfoldable pub chtimes : Text → ℕ → ℕ → Program S (Unit {0})
  unfolding wrap
  chtimes path atime mtime =
      explain "unpriv.chtimes" (wrap O path (λ path. O.chtimes path atime mtime))

  unfoldable pub lutimes : Text → ℕ → ℕ → Program S (Unit {0})
  unfolding wrap
  lutimes path atime mtime =
      explain "unpriv.lutimes" (wrap O path (λ path. O.lutimes path atime mtime))

  unfoldable pub remove : Text → Program S (Unit {0})
  unfolding wrap
  remove path = explain "unpriv.remove" (wrap O path (λ path. O.remove path))

  unfoldable pub mkdir : Text → ℕ → Program S (Unit {0})
  unfolding wrap
  mkdir path perm = explain "unpriv.mkdir" (wrap O path (λ path. O.mkdir path perm))

  unfoldable pub mknod : Text → ℕ → ℕ → Program S (Unit {0})
  unfolding wrap
  mknod path mode dev =
      explain "unpriv.mknod" (wrap O path (λ path. O.mknod path (mode % u32_mod) dev))

  unfoldable pub llistxattr : Text → Program S (List String)
  unfolding wrap
  llistxattr path = explain "unpriv.llistxattr" (wrap O path (λ path. O.llistxattr path))

  unfoldable pub lremovexattr : Text → String → Program S (Unit {0})
  unfolding wrap
  lremovexattr path name =
      explain "unpriv.lremovexattr" (wrap O path (λ path. O.lremovexattr path name))

  unfoldable pub lsetxattr : Text → String → Text → Program S (Unit {0})
  unfolding wrap
  lsetxattr path name value =
      explain "unpriv.lsetxattr" (wrap O path (λ path. O.lsetxattr path name value))

  unfoldable pub lgetxattr : Text → String → Program S Text
  unfolding wrap
  lgetxattr path name = explain "unpriv.lgetxattr" (wrap O path (λ path. O.lgetxattr path name))
