-- ===== src/FsEval.antt =====
-- pkg/fseval: the file operations that layers are read and written with. The paths of the code are
-- texts; the extraction of layers is modelled on paths as lists of components, which `on_components`
-- prints for the calls.
use umoci.Base.{ℕ, true, String, List, Text}
use umoci.Base.Program.{Program, ◌>>=◌, finally}
use umoci.FilePath.{components, clean_of}
use umoci.Unpriv.Os.{FileInfo, Os, Visit, WalkFunc}
use umoci.Unpriv.Calls
use umoci.Unpriv.Trees

-- FsEval; an open file is known by a number.
pub record FsEval (P : Type 0) (S : Type 0) : Type 0 where
  pub open_file : P → Program S ℕ
  pub create : P → Program S ℕ
  pub readdir : P → Program S (List FileInfo)
  pub lstat : P → Program S FileInfo
  pub lstatx : P → Program S FileInfo
  pub readlink : P → Program S Text
  pub symlink : Text → P → Program S (Unit {0})
  pub link : P → P → Program S (Unit {0})
  pub chmod : P → ℕ → Program S (Unit {0})
  pub lutimes : P → ℕ → ℕ → Program S (Unit {0})
  pub remove_all : P → Program S (Unit {0})
  pub mkdir_all : P → ℕ → Program S (Unit {0})
  pub mknod : P → ℕ → ℕ → Program S (Unit {0})
  pub llistxattr : P → Program S (List String)
  pub lremovexattr : P → String → Program S (Unit {0})
  pub lsetxattr : P → String → Text → Program S (Unit {0})
  pub lgetxattr : P → String → Program S Text
  pub lclearxattrs : P → List String → Program S (Unit {0})
  pub walk : P → (P → Visit → Program S (Unit {0})) → Program S (Unit {0})

-- The functions of os, path/filepath and pkg/system that go through more than one call.
pub record TreeCalls (S : Type 0) : Type 0 where
  pub remove_all : Text → Program S (Unit {0})
  pub mkdir_all : Text → ℕ → Program S (Unit {0})
  pub walk : Text → WalkFunc S → Program S (Unit {0})
  pub lclearxattrs : Text → List String → Program S (Unit {0})

module _ {S : Type 0} (O : Os S) where
  -- Default
  abbrev pub default : TreeCalls S → FsEval Text S
  default T = record {
    open_file = O.open_file;
    create = O.create;
    readdir = λ path. O.open_file path >>= λ fh. finally (O.readdir fh) (O.close fh);
    lstat = O.lstat;
    lstatx = O.lstat;
    readlink = O.readlink;
    symlink = O.symlink;
    link = O.linkat;
    chmod = O.chmod;
    lutimes = O.lutimes;
    remove_all = T.remove_all;
    mkdir_all = T.mkdir_all;
    mknod = O.mknod;
    llistxattr = O.llistxattr;
    lremovexattr = O.lremovexattr;
    lsetxattr = O.lsetxattr;
    lgetxattr = O.lgetxattr;
    lclearxattrs = T.lclearxattrs;
    walk = T.walk;
  }

  -- Rootless, with the fuel of the calls that go through a tree.
  abbrev pub rootless : ℕ → FsEval Text S
  rootless fuel = record {
    open_file = Calls.open_file O;
    create = Calls.create O;
    readdir = Calls.readdir O;
    lstat = Calls.lstat O;
    lstatx = Calls.lstatx O;
    readlink = Calls.readlink O;
    symlink = Calls.symlink O;
    link = Calls.link O;
    chmod = Calls.chmod O;
    lutimes = Calls.lutimes O;
    remove_all = Trees.remove_all O fuel;
    mkdir_all = Trees.mkdir_all O fuel;
    mknod = Calls.mknod O;
    llistxattr = Calls.llistxattr O;
    lremovexattr = Calls.lremovexattr O;
    lsetxattr = Calls.lsetxattr O;
    lgetxattr = Calls.lgetxattr O;
    lclearxattrs = Trees.lclearxattrs O;
    walk = Trees.walk O fuel;
  }

-- An absolute path from its components, the last one first.
abbrev pub absolute : List Text → Text
absolute cs = clean_of true cs

abbrev pub on_components : {S : Type 0} → FsEval Text S → FsEval (List Text) S
on_components F = record {
  open_file = λ p. F.open_file (absolute p);
  create = λ p. F.create (absolute p);
  readdir = λ p. F.readdir (absolute p);
  lstat = λ p. F.lstat (absolute p);
  lstatx = λ p. F.lstatx (absolute p);
  readlink = λ p. F.readlink (absolute p);
  symlink = λ target p. F.symlink target (absolute p);
  link = λ old p. F.link (absolute old) (absolute p);
  chmod = λ p m. F.chmod (absolute p) m;
  lutimes = λ p a m. F.lutimes (absolute p) a m;
  remove_all = λ p. F.remove_all (absolute p);
  mkdir_all = λ p m. F.mkdir_all (absolute p) m;
  mknod = λ p m d. F.mknod (absolute p) m d;
  llistxattr = λ p. F.llistxattr (absolute p);
  lremovexattr = λ p n. F.lremovexattr (absolute p) n;
  lsetxattr = λ p n v. F.lsetxattr (absolute p) n v;
  lgetxattr = λ p n. F.lgetxattr (absolute p) n;
  lclearxattrs = λ p ns. F.lclearxattrs (absolute p) ns;
  walk = λ p fn. F.walk (absolute p) (λ q v. fn (components q) v);
}
