-- ===== src/Tests/Links.antt =====
-- oci/layer: a layer extracted to a file system with symbolic links, which notes calls that leave the rootfs.
use umoci.Base.{
  ◌<◌, ◌≡◌, refl, ap, ◌∙◌, inl, inr, Bool, true, false, ◌&&◌, List, [], ◌∷◌, ◌++◌, Option, none,
  some, Text, All, text_eq, has_prefix, codes, length, arith, Bool-cases, if◌then◌else◌,
}
use umoci.Base.Errors.{GoError, sentinel, is_error}
use umoci.Base.Result.{Result, ok, err, Returns}
use umoci.Base.Program.{Program, done, fail, Respects}
use umoci.FsEval.{FsEval}
use umoci.Unpriv.Os.{FileInfo, seen}
use umoci.Layer.Paths.{Components, clean_path, same_path}
use umoci.Layer.PathLaws.{same_path_refl, same_path_sound, or_true}
use umoci.Layer.Extractor.{reg, dir, symlink, TarHeader, TarExtractor, new_tar_extractor, Env}
use umoci.Layer.Whiteout.{drop_prefix}
use umoci.Layer.Create.{split_last}
use umoci.IdTools.Mapping.{to_host}
use umoci.Layer.Entry.{unpack_layer}
use umoci.Layer.Inside.{IsContained}
use umoci.Layer.Guarded.{Calm, At, KeepsDir}
use umoci.Layer.Confined.{Confines}
use umoci.Layer.ConfinedLayer.{Kept, unpack_layer-Confined}
use umoci.Tests.Headers.{pairs}
use umoci.Tests.Extraction.{is_below, info_of, visit_root, walk-keeps, header_of, options, rootfs}

data Node : Type 0 where
  file folder alias : Node

abbrev Tree : Type 0
Tree = Components → Option Node

-- The tree, and whether a call has left the rootfs.
record World : Type 0 where
  nodes : Tree
  escaped : Bool

abbrev not_alias : Option Node → Bool
not_alias none = true
not_alias (some file) = true
not_alias (some folder) = true
not_alias (some alias) = false

-- Neither the path nor one above it is a link.
unfoldable clear : Tree → Components → Bool
clear t [] = true
clear t (c ∷ up) = let rest = clear t up in not_alias (t (c ∷ up)) && rest

abbrev above : Components → Components
above [] = []
above (c ∷ up) = up

abbrev real : World → Components → Bool
real s p = is_below rootfs p && clear s.nodes p

-- A call that does not follow a link at its path leaves the rootfs by the links above.
abbrev held : World → Components → Bool
held s p = is_below rootfs p && clear s.nodes (above p)

abbrev escape : World → World
escape s = record s { escaped = true }

abbrev set_node : Components → Option Node → Tree → Tree
set_node p n t q = if same_path p q then n else t q

abbrev cut_node : Components → Tree → Tree
cut_node p t q = if is_below p q then none else t q

abbrev change : Bool → Tree → World → World
change true t s = record s { nodes = t }
change false t s = escape s

abbrev write : Components → Option Node → Program World (Unit {0})
write p n s = (ok tt, change (held s p) (set_node p n s.nodes) s)

abbrev touch : Components → Program World (Unit {0})
touch p s = (ok tt, change (held s p) s.nodes s)

abbrev cut : Components → Program World (Unit {0})
cut p s = (ok tt, change (held s p) (cut_node p s.nodes) s)

abbrev told : Option Node → Result GoError FileInfo
told none = err (sentinel "file does not exist")
told (some file) = ok (info_of false)
told (some folder) = ok (info_of true)
told (some alias) = ok (record (info_of false) { is_symlink = true })

abbrev look : Components → Program World FileInfo
look p s = (told (s.nodes p), s)

abbrev files : FsEval Components World
files = record {
  open_file = λ p. done 0;
  create = λ p s. (ok 0, change (real s p) (set_node p (some file) s.nodes) s);
  readdir = λ p. done [];
  lstat = look;
  lstatx = look;
  readlink = λ p. fail (sentinel "invalid argument");
  symlink = λ target p. write p (some alias);
  link = λ old p s. write p (s.nodes old) s;
  chmod = λ p m s. (ok tt, change (real s p) s.nodes s);
  lutimes = λ p a m. touch p;
  remove_all = cut;
  mkdir_all = λ p m. write p (some folder);
  mknod = λ p m d. write p (some file);
  llistxattr = λ p. done [];
  lremovexattr = λ p n. touch p;
  lsetxattr = λ p n v. touch p;
  lgetxattr = λ p n. done [];
  lclearxattrs = λ p ns. touch p;
  walk = visit_root;
}

abbrev resolved : Bool → Components → Result GoError Components
resolved true p = ok p
resolved false p = err (sentinel "too many levels of symbolic links")

abbrev env : Env World
env = record {
  secure_join = λ F root p s. (resolved (real s (p ++ root)) (p ++ root), s);
  file_info_header = λ fi target. ok (header_of fi.name dir);
  file_info = λ hdr. info_of false;
  lchown = λ p u g. touch p;
  os_remove_all = cut;
  now = done 9;
  mkdev = λ major minor. 0;
  close_file = λ fh. done tt;
  chmod_file = λ fh m. done tt;
  copy_buffer = λ fh. done (5, none);
  proto = pairs;
}

abbrev SameEscape : World → World → Type 0
SameEscape s t = s.escaped ≡ t.escaped

abbrev Real : World → Components → Type 0
Real s p = real s p ≡ true

both_true : (a b : Bool) → (a && b) ≡ true → (a ≡ true) × (b ≡ true)
both_true true b h = (refl, h)
both_true false b h = cc

is_below_next : (c : Text) (p q : Components) → is_below p q ≡ true → is_below p (c ∷ q) ≡ true
unfolding is_below
is_below_next c p q h = rw h (or_true (same_path p (c ∷ q)))

is_below_self : (p : Components) → is_below p p ≡ true
unfolding is_below
is_below_self [] = same_path_refl []
is_below_self (c ∷ up) = rw (same_path_refl (c ∷ up)) refl

clear-above : (t : Tree) (p : Components) → clear t p ≡ true → clear t (above p) ≡ true
unfolding clear
clear-above t [] h = h
clear-above t (c ∷ up) h = (both_true (not_alias (t (c ∷ up))) (clear t up) h).1

At_held : (p : Components) (s : World) → At SameEscape Real p s → held s p ≡ true
At_held p s (inl h) =
    let (a, b) = both_true (is_below rootfs p) (clear s.nodes p) h in
    rw (a, clear-above s.nodes p b) refl
At_held p s (inr (c, d, e, h)) =
    let (a, b) = both_true (is_below rootfs d) (clear s.nodes d) h in
    rw e (rw (is_below_next c rootfs d a, b) refl)

-- A tree that has links only where the other has.
abbrev NoNew : Tree → Tree → Type 0
NoNew t u = (q : Components) → not_alias (t q) ≡ true → not_alias (u q) ≡ true

clear-NoNew : (t u : Tree) → NoNew t u → (q : Components) → clear t q ≡ true → clear u q ≡ true
unfolding clear
clear-NoNew t u f [] h = refl
clear-NoNew t u f (c ∷ up) h =
    let (a, b) = both_true (not_alias (t (c ∷ up))) (clear t up) h in
    rw (f (c ∷ up) a, clear-NoNew t u f up b) refl

changed :
    (s : World) (u : Tree) (b : Bool)
    → b ≡ true
    → NoNew s.nodes u
    → Calm SameEscape Real s (change b u s)
changed s u true h f = (
  refl,
  λ q r.
      let (a, b) = both_true (is_below rootfs q) (clear s.nodes q) r in
      rw (a, clear-NoNew s.nodes u f q b) refl,
)
changed s u false h f = cc

set-NoNew :
    (p : Components) (n : Option Node) (t : Tree) → not_alias n ≡ true → NoNew t (set_node p n t)
set-NoNew p n t h q r = elim (Bool-cases (same_path p q)) [ inl e ↦ rw e h | inr e ↦ rw e r ]

cut-NoNew : (p : Components) (t : Tree) → NoNew t (cut_node p t)
cut-NoNew p t q r = elim (Bool-cases (is_below p q)) [ inl e ↦ rw e refl | inr e ↦ rw e r ]

-- A node below a directory says nothing of the paths to it.
clear-set_below :
    (p : Components) (n : Option Node) (t : Tree) (q : Components)
    → length q < length p
    → clear t q ≡ true
    → clear (set_node p n t) q ≡ true
unfolding clear
clear-set_below p n t [] l h = refl
clear-set_below p n t (c ∷ up) l h =
    let (a, b) = both_true (not_alias (t (c ∷ up))) (clear t up) h in
    rw (apart, a, clear-set_below p n t up (omega (arith, l)) b) refl
  where
    shorter : (p q : Components) → length q < length p → p ≡ q → ⊥
    shorter p q l e = let same = ap length e in omega (arith, l, same)

    apart : same_path p (c ∷ up) ≡ false
    apart = elim (Bool-cases (same_path p (c ∷ up))) [
      | inl e ↦ absurd (shorter p (c ∷ up) l (same_path_sound p (c ∷ up) e))
      | inr e ↦ e
    ]

linked :
    (c : Text) (d : Components) (n : Option Node)
    → Respects (KeepsDir SameEscape Real d) (write (c ∷ d) n)
linked c d n s h =
    let (a, b) = both_true (is_below rootfs d) (clear s.nodes d) h in
    rw (is_below_next c rootfs d a, b)
      (refl, rw (a, clear-set_below (c ∷ d) n s.nodes d (omega arith) b) refl)

told_real :
    (s : World) (p : Components) → At SameEscape Real p s → not_alias (s.nodes p) ≡ true → Real s p
unfolding clear
told_real s p (inl h) n = h
told_real s p (inr (c, d, e, h)) n =
    let (a, b) = both_true (is_below rootfs d) (clear s.nodes d) h in
    rw e (rw (is_below_next c rootfs d a, rw e at n, b) refl)

plain_told :
    (o : Option Node) {fi : FileInfo} → told o ≡ ok fi → fi.is_symlink ≡ false → not_alias o ≡ true
plain_told none q e = refl
plain_told (some file) q e = refl
plain_told (some folder) q e = refl
plain_told (some alias) q e = cc

missing_told : (o : Option Node) {e : GoError} → told o ≡ err e → not_alias o ≡ true
missing_told none q = refl
missing_told (some file) q = refl
missing_told (some folder) q = refl
missing_told (some alias) q = cc

cut_real : (s : World) (p : Components) → At SameEscape Real p s → Real (cut p s).1 p
cut_real s p near =
    rw (At_held p s near)
      (told_real (record s { nodes = cut_node p s.nodes }) p still (rw (is_below_self p) refl))
  where
    calm : Calm SameEscape Real s (record s { nodes = cut_node p s.nodes })
    calm = changed s (cut_node p s.nodes) true refl (cut-NoNew p s.nodes)

    moved : At SameEscape Real p s → At SameEscape Real p (record s { nodes = cut_node p s.nodes })
    moved (inl h) = inl (calm.1 p h)
    moved (inr (c, d, e, h)) = inr (c, d, e, calm.1 d h)

    still : At SameEscape Real p (record s { nodes = cut_node p s.nodes })
    still = moved near

resolved-real : (s : World) (p : Components) → Returns (λ d. Real s d) (resolved (real s p) p)
resolved-real s p = elim (Bool-cases (real s p)) [ inl e ↦ rw e e | inr e ↦ rw e tt ]

confines : Confines SameEscape Real rootfs files env
confines = record {
  preorder = record { same = λ s. refl; chain = λ f g. f ∙ g };
  lstat-R = λ p s. (refl, λ q h. h);
  readlink-R = λ p s. (refl, λ q h. h);
  llistxattr-R = λ p s. (refl, λ q h. h);
  lgetxattr-R = λ p n s. (refl, λ q h. h);
  lstat-Real = λ p s near q e. told_real s p near (plain_told (s.nodes p) q e);
  lstat-Real_err = λ p s near q. told_real s p near (missing_told (s.nodes p) q);
  chmod-R = λ p m s h. changed s s.nodes (real s p) h (λ q r. r);
  create-R = λ p s h.
      changed s (set_node p (some file) s.nodes) (real s p) h
        (set-NoNew p (some file) s.nodes refl);
  lutimes-R = λ p a m s h. changed s s.nodes (held s p) (At_held p s h) (λ q r. r);
  remove_all-R =
      λ p s h. changed s (cut_node p s.nodes) (held s p) (At_held p s h) (cut-NoNew p s.nodes);
  remove_all-Real = λ p s h q. cut_real s p h;
  mkdir_all-R = λ p m s h.
      changed s (set_node p (some folder) s.nodes) (held s p) (At_held p s h)
        (set-NoNew p (some folder) s.nodes refl);
  mknod-R = λ p m d s h.
      changed s (set_node p (some file) s.nodes) (held s p) (At_held p s h)
        (set-NoNew p (some file) s.nodes refl);
  lsetxattr-R = λ p n v s h. changed s s.nodes (held s p) (At_held p s h) (λ q r. r);
  lclearxattrs-R = λ p ns s h. changed s s.nodes (held s p) (At_held p s h) (λ q r. r);
  symlink-R = λ target c d. linked c d (some alias);
  link-R = λ old c d s h. linked c d (s.nodes old) s;
  walk-R = λ p fn h.
      walk-keeps (λ s t. At SameEscape Real p s → Calm SameEscape Real s t) p fn
        (h p (seen (info_of true)));
  secure_join-R = λ p s. (refl, λ q h. h);
  secure_join-Real = λ p s. resolved-real s (p ++ rootfs);
  lchown-R = λ p u g s h. changed s s.nodes (held s p) (At_held p s h) (λ q r. r);
  os_remove_all-R =
      λ p s h. changed s (cut_node p s.nodes) (held s p) (At_held p s h) (cut-NoNew p s.nodes);
  now-R = λ s. (refl, λ q h. h);
  close_file-R = λ fh s. (refl, λ q h. h);
  chmod_file-R = λ fh m s. (refl, λ q h. h);
  copy_buffer-R = λ fh s. (refl, λ q h. h);
}

abbrev extractor : TarExtractor World
extractor = new_tar_extractor false files files options

-- The rootfs has a link /etc.
abbrev bundle : World
bundle = record {
  nodes = λ q.
      if same_path (codes "etc" ∷ rootfs) q
      then some alias
      else if is_below q rootfs
      then some folder
      else none;
  escaped = false;
}

-- A file that takes the place of a link, a link, and a file below a link.
abbrev layer : List TarHeader
layer =
    header_of (codes "etc") reg
    ∷ header_of (codes "../tmp") symlink
    ∷ header_of (codes "tmp/passwd") reg
    ∷ []

abbrev extracted : Result GoError (Unit {0}) × (TarExtractor World × World)
extracted = unpack_layer env 1 rootfs layer none (extractor, bundle)

abbrev node_at : Text → Option Node
node_at name = extracted.1.1.nodes (name ∷ rootfs)

etc_replaced : node_at (codes "etc") ≡ some file
unfolding unpack_layer is_error is_below clear to_host
etc_replaced = refl

tmp_linked : node_at (codes "tmp") ≡ some alias
unfolding unpack_layer is_error is_below clear to_host
tmp_linked = refl

no_escape : All (λ hdr. IsContained (split_last (clean_path hdr.owner.name)).1) layer
unfolding clean_path has_prefix drop_prefix text_eq
no_escape = (refl, (refl, (refl, tt)))

unpack_layer-Confined_example : Kept SameEscape Real rootfs env (extractor, bundle) extracted.1
unpack_layer-Confined_example =
    unpack_layer-Confined SameEscape Real rootfs env 1 extractor layer none bundle confines
      no_escape
