-- ===== src/Tests/Extraction.antt =====
-- oci/layer: a small layer extracted to a file system that knows of each path whether it is a directory.
use umoci.Base.{
  ◌≡◌, refl, sym, ap, ◌∙◌, inl, inr, Bool, true, false, ◌||◌, List, [], ◌∷◌, ◌++◌, Option, none,
  some, Text, text_eq, has_prefix, codes, Bool-cases, if◌then◌else◌,
}
use umoci.Base.Errors.{GoError, sentinel, is_error}
use umoci.Base.Int.{pos}
use umoci.Base.Result.{Result, ok, err}
use umoci.Base.Program.{Program, done, fail, ◌>>=◌, attempt, Respects}
use umoci.FsEval.{FsEval}
use umoci.Unpriv.Os.{FileInfo, is_skip_dir, Visit, seen}
use umoci.Layer.Paths.{Components, same_path, is_member}
use umoci.Layer.PathLaws.{same_path_sound, ancestors-IsClosed}
use umoci.Layer.Extractor.{
  TypeFlag, reg, dir, TarHeader, oci_standard, UnpackOptions, wh_prefix, TarExtractor,
  new_tar_extractor, Env,
}
use umoci.Layer.Whiteout.{drop_prefix, trim_prefix, oci_whiteout}
use umoci.IdTools.Mapping.{to_host}
use umoci.Layer.Entry.{ancestors, unpack_layer}
use umoci.Layer.Inside.{Inside}
use umoci.Layer.UpperPaths.{Grows, unpack_layer-Grows}
use umoci.Layer.Spared.{IsName, Spares, oci_whiteout-Spared}
use umoci.Tests.Headers.{pairs, mappings}

-- The paths that exist, and whether each is a directory.
abbrev Tree : Type 0
Tree = Components → Option Bool

unfoldable pub is_below : Components → Components → Bool
unfolding same_path
is_below p [] = same_path p []
is_below p (c ∷ up) = let rest = is_below p up in same_path p (c ∷ up) || rest

abbrev put : Components → Bool → Program Tree (Unit {0})
put p is_dir s = (ok tt, λ q. if same_path p q then some is_dir else s q)

abbrev cut : Components → Program Tree (Unit {0})
cut p s = (ok tt, λ q. if is_below p q then none else s q)

abbrev pub info_of : Bool → FileInfo
info_of is_dir = record {
  name = [];
  mode = 0o755;
  is_dir = is_dir;
  is_symlink = false;
  atime = 0;
  mtime = 0;
}

abbrev look : Components → Program Tree FileInfo
look p s = (elim (s p) [ some d ↦ ok (info_of d) | none ↦ err (sentinel "file does not exist") ], s)

-- A walk that stays at its root.
abbrev pub visit_root :
    {T : Type 0} → Components → (Components → Visit → Program T (Unit {0})) → Program T (Unit {0})
visit_root p fn = attempt (fn p (seen (info_of true))) >>= λ r. elim r [
  | ok _ ↦ done tt
  | err e ↦ if is_skip_dir e then done tt else fail e
]

abbrev files : FsEval Components Tree
files = record {
  open_file = λ p. done 0;
  create = λ p s. (ok 0, (put p false s).1);
  readdir = λ p. done [];
  lstat = look;
  lstatx = look;
  readlink = λ p. fail (sentinel "invalid argument");
  symlink = λ target p. put p false;
  link = λ old p. put p false;
  chmod = λ p m. done tt;
  lutimes = λ p a m. done tt;
  remove_all = cut;
  mkdir_all = λ p m. put p true;
  mknod = λ p m d. put p false;
  llistxattr = λ p. done [];
  lremovexattr = λ p n. done tt;
  lsetxattr = λ p n v. done tt;
  lgetxattr = λ p n. done [];
  lclearxattrs = λ p ns. done tt;
  walk = visit_root;
}

abbrev pub header_of : Text → TypeFlag → TarHeader
header_of name flag = record {
  owner = record { name = name; uid = pos 0; gid = pos 0; xattrs = none };
  typeflag = flag;
  linkname = [];
  size = 5;
  mode = 0o644;
  mod_time = some 7;
  access_time = none;
  devmajor = 0;
  devminor = 0;
}

abbrev env : Env Tree
env = record {
  secure_join = λ F root p. done (p ++ root);
  file_info_header = λ fi target. ok (header_of fi.name dir);
  file_info = λ hdr. info_of false;
  lchown = λ p u g. done tt;
  os_remove_all = cut;
  now = done 9;
  mkdev = λ major minor. 0;
  close_file = λ fh. done tt;
  chmod_file = λ fh m. done tt;
  copy_buffer = λ fh. done (5, none);
  proto = pairs;
}

abbrev pub options : UnpackOptions
options = record {
  map_options = record {
    uid_mappings = some mappings;
    gid_mappings = some mappings;
    rootless = false;
  };
  keep_dirlinks = false;
  whiteout_mode = oci_standard;
}

abbrev extractor : TarExtractor Tree
extractor = new_tar_extractor false files files options

-- The bundle /b with its rootfs, in which /old is, and config.json beside it.
abbrev pub rootfs : Components
rootfs = codes "rootfs" ∷ codes "b" ∷ []

abbrev bundle : Tree
bundle q =
    if is_member ((codes "old" ∷ rootfs) ∷ (codes "config.json" ∷ codes "b" ∷ []) ∷ []) q
    then some false
    else if is_member (rootfs ∷ (codes "b" ∷ []) ∷ [] ∷ []) q
    then some true
    else none

abbrev pub layer : List TarHeader
layer =
    header_of (codes "../etc/") dir
    ∷ header_of (codes "etc/passwd") reg
    ∷ header_of (codes ".wh.old") reg
    ∷ []

abbrev extracted : Result GoError (Unit {0}) × (TarExtractor Tree × Tree)
extracted = unpack_layer env 1 rootfs layer none (extractor, bundle)

extracted_ok : extracted.0 ≡ ok tt
unfolding unpack_layer is_error is_below to_host
extracted_ok = refl

extracted_file : extracted.1.1 (codes "passwd" ∷ codes "etc" ∷ rootfs) ≡ some false
unfolding unpack_layer is_error is_below to_host
extracted_file = refl

extracted_old : extracted.1.1 (codes "old" ∷ rootfs) ≡ none
unfolding unpack_layer is_error is_below to_host
extracted_old = refl

is_below_sound : (p q : Components) → is_below p q ≡ true → Inside p q
unfolding is_below
is_below_sound p [] h = ([], sym (same_path_sound p [] h))
is_below_sound p (c ∷ up) h = elim (Bool-cases (same_path p (c ∷ up))) [
  | inl e ↦ ([], sym (same_path_sound p (c ∷ up) e))
  | inr e ↦ let (cs, f) = is_below_sound p up (rw e at h) in (c ∷ cs, ap (λ t. c ∷ t) f)
]

-- The walk keeps what its function keeps.
pub walk-keeps :
    {T : Type 0} (R : T → T → Type 0) (p : Components)
    (fn : Components → Visit → Program T (Unit {0}))
    → Respects R (fn p (seen (info_of true)))
    → Respects R (visit_root p fn)
walk-keeps {T} R p fn h s = by_result (fn p (seen (info_of true)) s) (h s)
  where
    by_result :
        (r : Result GoError (Unit {0}) × T)
        → R s r.1
        → R s
            ((elim r.0 as (λ _. Program T (Unit {0})) [
              | ok _ ↦ done tt
              | err e ↦ if is_skip_dir e then done tt else fail e
            ])
              r.1).1
    by_result (ok u, t) k = k
    by_result (err e, t) k = elim (Bool-cases (is_skip_dir e)) [ inl f ↦ rw f k | inr f ↦ rw f k ]

unpack_layer-Grows_example : Grows env rootfs (extractor, bundle) extracted.1
unpack_layer-Grows_example = unpack_layer-Grows env rootfs 1 layer none (extractor, bundle)

-- An extractor that has extracted /etc/passwd.
abbrev later : TarExtractor Tree
later = record extractor { upper_paths = ancestors (codes "passwd" ∷ codes "etc" ∷ []) }

abbrev Uppers : Tree → Tree → Type 0
Uppers s t =
    (u : Components) → is_member later.upper_paths u ≡ true → s (u ++ rootfs) ≡ t (u ++ rootfs)

spares : Spares Uppers rootfs later
spares = record {
  preorder = record { same = λ s u m. refl; chain = λ f g u m. f u m ∙ g u m };
  lstat-R = λ p s u m. refl;
  remove_all-R = λ p apart s u m. elim (Bool-cases (is_below p (u ++ rootfs))) [
    | inl e ↦ absurd (apart u m (is_below_sound p (u ++ rootfs) e))
    | inr e ↦ rw e refl
  ];
  walk-R = λ p fn h. walk-keeps Uppers p fn (h p (seen (info_of true)) ([], refl));
}

abbrev upper_tree : Tree
upper_tree q =
    if is_member ((codes "passwd" ∷ codes "etc" ∷ rootfs) ∷ []) q then some false else some true

plain_etc : IsName (trim_prefix (codes ".wh.etc") wh_prefix)
unfolding text_eq has_prefix drop_prefix
plain_etc = (refl, refl)

oci_whiteout-Spared_example :
    Uppers upper_tree (oci_whiteout later rootfs rootfs (codes ".wh.etc") upper_tree).1
oci_whiteout-Spared_example =
    oci_whiteout-Spared Uppers rootfs later spares
      (ancestors-IsClosed (codes "passwd" ∷ codes "etc" ∷ [])) rootfs (codes ".wh.etc") ([], refl)
      (inr plain_etc) upper_tree
