-- ===== src/Unpriv/Trees.antt =====
-- pkg/unpriv/unpriv.go: the calls that go through a tree, and Lclearxattrs. The recursive ones take
-- fuel, a unit for each level of the tree or of the path.
use Prim.Native.Nat.{bit_or}
use umoci.Base.{
  ℕ, zero, suc, Bool, true, false, ◌&&◌, ◌||◌, ◌==◌, ltb, String, List, [], ◌∷◌, Text, text_eq,
  Option, none, some, if◌then◌else◌,
}
use umoci.Base.Dict.{contains}
use umoci.Base.Errors.{GoError, sentinel, wrapped}
use umoci.Base.Result.{Result, ok, err}
use umoci.Base.Program.{Program, done, fail, ◌>>=◌, ◌>>◌, attempt, returning, explain}
use umoci.FilePath.{join, dir, dot}
use umoci.Unpriv.Os.{
  FileInfo, Os, is_permission, is_not_exist, is_gone, is_skip_dir, seen, unseen, WalkFunc,
}
use umoci.Unpriv.Wrap.{fi_restore, wrap}
use umoci.Unpriv.Calls.{open_file, lstat, llistxattr, lremovexattr}

abbrev pub out_of_fuel : GoError
out_of_fuel = sentinel "out of fuel"

-- sort.Strings
unfoldable pub text_leb : Text → Text → Bool
text_leb [] t = true
text_leb (c ∷ s) [] = false
text_leb (c ∷ s) (d ∷ t) = ltb c d || ((c == d) && text_leb s t)

unfoldable pub insert_name : Text → List Text → List Text
unfolding text_leb
insert_name n [] = n ∷ []
insert_name n (m ∷ ms) =
    let rest = insert_name n ms in if text_leb n m then n ∷ m ∷ ms else m ∷ rest

unfoldable pub sort : List Text → List Text
unfolding insert_name
sort [] = []
sort (n ∷ ns) = insert_name n (sort ns)

-- The first error of the two, if there is one.
abbrev pub first_error : Option GoError → Option GoError → Option GoError
first_error none later = later
first_error (some e) later = some e

abbrev pub error_of : {A : Type 0} → Result GoError A → Option GoError
error_of (ok a) = none
error_of (err e) = some e

module _ {S : Type 0} (O : Os S) where
  -- The loop of foreachSubpath; a value goes from one call to the next.
  unfoldable pub foreach_name :
      {A : Type 0} → Text → (Text → A → Program S A) → List Text → A → Program S A
  unfolding wrap join
  foreach_name path fn [] a = done a
  foreach_name path fn (name ∷ names) a =
      wrap O (join (path ∷ name ∷ [])) (λ subpath. fn subpath a) >>= λ b.
      foreach_name path fn names b

  -- The names of a directory, read with the mode changed for the time of the call.
  unfoldable pub names_of : Text → FileInfo → Program S (List Text)
  unfolding fi_restore open_file
  names_of path fi = open_file O path >>= λ fd.
      attempt (O.chmod path (bit_or fi.mode 0o444)) >>= λ _.
      attempt (O.readdirnames fd) >>= λ names. fi_restore O path fi >> returning names

  -- foreachSubpath; the directory is closed with the last call.
  unfoldable pub foreach_subpath : {A : Type 0} → Text → (Text → A → Program S A) → A → Program S A
  unfolding foreach_name names_of sort
  foreach_subpath path fn a = O.lstat path >>= λ fi.
      if fi.is_dir
      then (names_of path fi >>= λ names. foreach_name path fn (sort names) a)
      else done a

  -- The end of RemoveAll for a directory, with the first error of its children.
  abbrev pub remove_emptied : Text → Option GoError → Program S (Unit {0})
  remove_emptied path failed = attempt (O.remove path) >>= λ r. elim r [
    | ok _ ↦ done tt
    | err e ↦
        if is_not_exist e
        then done tt
        else elim failed [ none ↦ fail (wrapped "remove" e) | some e' ↦ fail (wrapped "remove" e') ]
  ]

  -- RemoveAll for a directory. An error about a file that is gone is dropped and a message made of
  -- nil all the same.
  unfoldable pub remove_children : (Text → Program S (Unit {0})) → Text → Program S (Unit {0})
  unfolding foreach_subpath
  remove_children remove_all path =
      attempt (
        foreach_subpath path
          (λ subpath failed.
            attempt (remove_all subpath) >>= λ r. done (first_error failed (error_of r)))
          none)
      >>= λ r. elim r [
        | err e ↦ fail (
            if is_not_exist e then sentinel "foreach subpath: nil" else wrapped "foreach subpath" e)
        | ok failed ↦ remove_emptied path failed
      ]

  -- What RemoveAll does to a path that can be reached.
  unfoldable pub remove_reached : (Text → Program S (Unit {0})) → Text → Program S (Unit {0})
  unfolding remove_children
  remove_reached remove_all path = attempt (O.remove path) >>= λ r. elim r [
    | ok _ ↦ done tt
    | err e ↦
        if is_not_exist e
        then done tt
        else (attempt (O.lstat path) >>= λ st. elim st [
          | err e' ↦ if is_gone e' then done tt else fail (wrapped "lstat" e')
          | ok fi ↦
              if fi.is_dir
              then remove_children remove_all path
              else fail (wrapped "remove non-directory" e)
        ])
  ]

  unfoldable pub remove_all : ℕ → Text → Program S (Unit {0})
  unfolding wrap remove_reached
  remove_all zero path = fail out_of_fuel
  remove_all (suc fuel) path =
      explain "unpriv.removeall" (wrap O path (λ p. remove_reached (remove_all fuel) p))

  -- os.Mkdir at the end of MkdirAll, where "foo/." may be there already.
  abbrev pub mkdir_last : Text → ℕ → Program S (Unit {0})
  mkdir_last path perm = attempt (O.mkdir path perm) >>= λ r. elim r [
    | ok _ ↦ done tt
    | err e ↦ attempt (O.lstat path) >>= λ st. elim st [
      | ok fi ↦ if fi.is_dir then done tt else fail e
      | err _ ↦ fail e
    ]
  ]

  abbrev pub is_top : Text → Bool
  is_top parent = text_eq parent dot || text_eq parent (b'/' ∷ [])

  -- What MkdirAll does to a path that can be reached.
  unfoldable pub mkdir_reached : (Text → Program S (Unit {0})) → ℕ → Text → Program S (Unit {0})
  unfolding dir text_eq
  mkdir_reached mkdir_all perm path = attempt (O.stat path) >>= λ st. elim st [
    | ok fi ↦ if fi.is_dir then done tt else fail (sentinel "not a directory")
    | err _ ↦ (if is_top (dir path) then done tt else mkdir_all (dir path)) >> mkdir_last path perm
  ]

  unfoldable pub mkdir_all : ℕ → Text → ℕ → Program S (Unit {0})
  unfolding wrap mkdir_reached
  mkdir_all zero path perm = fail out_of_fuel
  mkdir_all (suc fuel) path perm =
      explain "unpriv.mkdirall"
        (wrap O path (λ p. mkdir_reached (λ q. mkdir_all fuel q perm) perm p))

  -- The loop of Lclearxattrs.
  unfoldable pub remove_names : Text → List String → List String → Program S (Unit {0})
  unfolding contains lremovexattr
  remove_names path except [] = done tt
  remove_names path except (name ∷ names) =
      let rest = remove_names path except names in
      if contains except name
      then rest
      else (attempt (lremovexattr O path name) >>= λ r. elim r [
        | ok _ ↦ rest
        | err e ↦ if is_permission e then rest else fail e
      ])

  unfoldable pub lclearxattrs : Text → List String → Program S (Unit {0})
  unfolding wrap remove_names llistxattr
  lclearxattrs path except =
      explain "unpriv.lclearxattrs"
        (wrap O path (λ p. llistxattr O p >>= λ names. remove_names p except names))

  -- The function that walk calls for each child.
  unfoldable pub walk_child :
      (Text → FileInfo → Program S (Unit {0})) → WalkFunc S → Text → Program S (Unit {0})
  unfolding lstat
  walk_child walk fn subpath = attempt (lstat O subpath) >>= λ st. elim st [
    | err e ↦ attempt (fn subpath (unseen e)) >>= λ r. elim r [
      | ok _ ↦ done tt
      | err e' ↦ if is_skip_dir e' then fail e' else done tt
    ]
    | ok fi ↦ attempt (walk subpath fi) >>= λ r. elim r [
      | ok _ ↦ done tt
      | err e ↦ if fi.is_dir && is_skip_dir e then done tt else fail e
    ]
  ]

  -- walk
  unfoldable pub walk_tree : ℕ → WalkFunc S → Text → FileInfo → Program S (Unit {0})
  unfolding foreach_subpath walk_child
  walk_tree zero fn path fi = fail out_of_fuel
  walk_tree (suc fuel) fn path fi =
      let below = λ (p : Text) (i : FileInfo). walk_tree fuel fn p i in
      fn path (seen fi)
      >> (if fi.is_dir
          then foreach_subpath path (λ subpath _. walk_child below fn subpath) tt
          else done tt)

  -- What Walk does to a root that can be reached.
  unfoldable pub walk_reached : ℕ → WalkFunc S → Text → Program S (Unit {0})
  unfolding walk_tree lstat
  walk_reached fuel fn root =
      attempt (
        attempt (lstat O root) >>= λ st. elim st [
          | err e ↦ fn root (unseen e)
          | ok fi ↦ walk_tree fuel fn root fi
        ])
      >>= λ r. elim r [
        | ok _ ↦ done tt
        | err e ↦ if is_skip_dir e then done tt else fail (wrapped "unpriv.walk" e)
      ]

  unfoldable pub walk : ℕ → Text → WalkFunc S → Program S (Unit {0})
  unfolding wrap walk_reached
  walk fuel root fn = wrap O root (λ r. walk_reached fuel fn r)
