-- ===== src/Unpriv/WalkModes.antt =====
-- pkg/unpriv/unpriv.go: Walk and the modes of directories.
use Prim.Native.Nat.{bit_or, bit_and}
use umoci.Base.{
  ℕ, zero, suc, ◌==◌, ◌≡◌, inl, inr, Bool, true, false, ◌&&◌, List, [], ◌∷◌, String, Text, some,
  if◌then◌else◌,
}
use umoci.Base.Result.{Result-cases}
use umoci.Base.Program.{
  Program, done, ◌>>=◌, ◌>>◌, explain, finally, Respects, IsPreorder, Respects-bind,
  Respects-explain, Respects-handle, Respects-if,
}
use umoci.FilePath.{join}
use umoci.Unpriv.Os.{FileInfo, Os, is_skip_dir, Visit, seen, unseen, WalkFunc}
use umoci.Unpriv.Wrap.{fi_restore, wrap}
use umoci.Unpriv.Calls.{open_reached, open_file, lstat}
use umoci.Unpriv.Trees.{
  sort, foreach_name, names_of, foreach_subpath, walk_child, walk_tree, walk_reached, walk,
}
use umoci.Unpriv.Modes.{
  View, SameModes, IsLawful, SameModes-IsPreorder, Same-but, SameBut-chain, chmod-SameBut, restored,
  chmod_around, wrap-SameModes,
}

abbrev pub Everywhere : Text → Type 0
Everywhere p = Unit {0}

-- Opening a file and reading the names in a directory change no mode.
pub record IsReading {S : Type 0} (O : Os S) (V : View S) : Type 0 where
  pub open-same : (p : Text) → Respects (SameModes V Everywhere) (O.open_file p)
  pub names-same : (fd : ℕ) → Respects (SameModes V Everywhere) (O.readdirnames fd)

module _ {S : Type 0} (O : Os S) (V : View S) (L : IsLawful O V Everywhere)
    (R : IsReading O V) where
  abbrev Same : S → S → Type 0
  Same = SameModes V Everywhere

  pre : IsPreorder Same
  pre = SameModes-IsPreorder O V Everywhere L

  wrapped_call :
      {A : Type 0} (path : Text) (fn : Text → Program S A)
      → Respects Same (fn path)
      → Respects Same (wrap O path fn)
  wrapped_call path fn h = wrap-SameModes O V Everywhere L path fn (λ n. tt) h

  lstat-Same : (path : Text) → Respects Same (lstat O path)
  unfolding lstat
  lstat-Same path =
      Respects-explain pre "unpriv.lstat" (wrap O path (λ p. O.lstat p))
        (wrapped_call path (λ p. O.lstat p) (L.lstat-same path))

  -- What a call goes on with is told the mode by Lstat.
  after_lstat :
      {A : Type 0} (path : Text) (message : String) (f : FileInfo → Program S A)
      → ((fi : FileInfo) (s : S) → V.mode s (V.file s path) ≡ some fi.mode → Same s (f fi s).1)
      → Respects Same (explain message (O.lstat path) >>= f)
  after_lstat path message f h s = elim (Result-cases (O.lstat path s).0) [
    | inr (e, q) ↦ rw q (L.lstat-same path s)
    | inl (fi, q) ↦
        rw q (pre.chain (L.lstat-same path s) (h fi (O.lstat path s).1 (L.lstat-mode path s tt q)))
  ]

  open_reached-Same : (path : Text) → Respects Same (open_reached O path)
  unfolding open_reached
  open_reached-Same path =
      after_lstat path "lstat file" _
        (λ fi s from. by_mode fi (bit_and fi.mode 0o400 == 0o400) s from)
    where
      by_mode :
          (fi : FileInfo) (b : Bool) (s : S)
          → V.mode s (V.file s path) ≡ some fi.mode
          → Same s
              ((if b
                  then O.open_file path
                  else (explain "chmod +r" (O.chmod path (bit_or fi.mode 0o400))
                      >> finally (O.open_file path) (fi_restore O path fi)))
                s).1
      by_mode fi true s from = R.open-same path s
      by_mode fi false s from =
          chmod_around O V Everywhere L path (bit_or fi.mode 0o400) "chmod +r" fi (O.open_file path)
            s tt from (R.open-same path)

  open_file-Same : (path : Text) → Respects Same (open_file O path)
  unfolding open_file
  open_file-Same path =
      Respects-explain pre "unpriv.open" _
        (wrapped_call path (open_reached O) (open_reached-Same path))

  names_of-Same :
      (path : Text) (fi : FileInfo) (s : S)
      → V.mode s (V.file s path) ≡ some fi.mode
      → Same s (names_of O path fi s).1
  unfolding names_of
  names_of-Same path fi s from = elim (Result-cases (open_file O path s).0) [
    | inr (e, q) ↦ rw q (open_file-Same path s)
    | inl (fd, q) ↦ rw q (read fd (open_file O path s).1 (open_file-Same path s))
  ]
    where
      read :
          (fd : ℕ) (t : S)
          → Same s t
          → Same s
              (fi_restore O path fi
                (O.readdirnames fd (O.chmod path (bit_or fi.mode 0o444) t).1).1).1
      read fd t h = restored O V Everywhere L path fi tt from (
          SameBut-chain O V Everywhere L path
            (chmod-SameBut O V Everywhere L path (bit_or fi.mode 0o444) tt
              (Same-but O V Everywhere L path s t h))
            (R.names-same fd (O.chmod path (bit_or fi.mode 0o444) t).1))

  foreach_name-Same :
      {A : Type 0} (path : Text) (fn : Text → A → Program S A)
      → ((p : Text) (a : A) → Respects Same (fn p a))
      → (names : List Text) (a : A) → Respects Same (foreach_name O path fn names a)
  unfolding foreach_name
  foreach_name-Same path fn h [] a = pre.same
  foreach_name-Same path fn h (name ∷ names) a =
      Respects-bind pre _ _
        (wrapped_call (join (path ∷ name ∷ [])) (λ p. fn p a) (h (join (path ∷ name ∷ [])) a))
        (λ b. foreach_name-Same path fn h names b)

  foreach_subpath-Same :
      {A : Type 0} (path : Text) (fn : Text → A → Program S A) (a : A)
      → ((p : Text) (b : A) → Respects Same (fn p b))
      → Respects Same (foreach_subpath O path fn a)
  unfolding foreach_subpath
  foreach_subpath-Same {A = A} path fn a h s = elim (Result-cases (O.lstat path s).0) [
    | inr (e, q) ↦ rw q (L.lstat-same path s)
    | inl (fi, q) ↦ rw q (
        pre.chain (L.lstat-same path s)
          (by_kind fi fi.is_dir (O.lstat path s).1 (L.lstat-mode path s tt q)))
  ]
    where
      by_kind :
          (fi : FileInfo) (b : Bool) (t : S)
          → V.mode t (V.file t path) ≡ some fi.mode
          → Same t
              ((if b
                  then (names_of O path fi >>= λ names. foreach_name O path fn (sort names) a)
                  else done a)
                t).1
      by_kind fi false t from = pre.same t
      by_kind fi true t from = elim (Result-cases (names_of O path fi t).0) [
        | inr (e, q) ↦ rw q (names_of-Same path fi t from)
        | inl (names, q) ↦ rw q (
            pre.chain (names_of-Same path fi t from)
              (foreach_name-Same path fn h (sort names) a (names_of O path fi t).1))
      ]

  module _ (fn : WalkFunc S) (quiet : (p : Text) (v : Visit) → Respects Same (fn p v)) where
    walk_child-Same :
        (below : Text → FileInfo → Program S (Unit {0})) (p : Text)
        → ((q : Text) (fi : FileInfo) → Respects Same (below q fi))
        → Respects Same (walk_child O below fn p)
    unfolding walk_child
    walk_child-Same below p h =
        Respects-handle pre (lstat O p) _ _ (lstat-Same p)
          (λ fi.
            Respects-handle pre (below p fi) _ _ (h p fi) (λ _. pre.same)
              (λ e. Respects-if pre (fi.is_dir && is_skip_dir e) _ _ pre.same pre.same))
          (λ e.
            Respects-handle pre (fn p (unseen e)) _ _ (quiet p (unseen e)) (λ _. pre.same)
              (λ e'. Respects-if pre (is_skip_dir e') _ _ pre.same pre.same))

    walk_tree-Same :
        (fuel : ℕ) (p : Text) (fi : FileInfo) → Respects Same (walk_tree O fuel fn p fi)
    unfolding walk_tree
    walk_tree-Same zero p fi = pre.same
    walk_tree-Same (suc fuel) p fi = Respects-bind pre (fn p (seen fi)) _ (quiet p (seen fi)) (λ _.
        Respects-if pre fi.is_dir
          (foreach_subpath O p (λ q _. walk_child O (λ r i. walk_tree O fuel fn r i) fn q) tt)
          (done tt)
          (foreach_subpath-Same p (λ q _. walk_child O (λ r i. walk_tree O fuel fn r i) fn q) tt
            (λ q _.
              walk_child-Same (λ r i. walk_tree O fuel fn r i) q (λ r i. walk_tree-Same fuel r i)))
          pre.same)

    walk_reached-Same : (fuel : ℕ) (p : Text) → Respects Same (walk_reached O fuel fn p)
    unfolding walk_reached
    walk_reached-Same fuel p =
        Respects-handle pre _ _ _
          (Respects-handle pre (lstat O p) _ _ (lstat-Same p) (λ fi. walk_tree-Same fuel p fi)
            (λ e. quiet p (unseen e)))
          (λ _. pre.same) (λ e. Respects-if pre (is_skip_dir e) _ _ pre.same pre.same)

    -- Where no path is a symbolic link: a Walk, whatever the depth of the tree and the fuel, whose
    -- function keeps every mode leaves every file that a path names with its mode, whatever the calls
    -- return, except where the Chmod that gives this mode back was refused.
    pub walk-SameModes :
        (fuel : ℕ) (root : Text) → Respects (SameModes V Everywhere) (walk O fuel root fn)
    unfolding walk
    walk-SameModes fuel root =
        wrapped_call root (walk_reached O fuel fn) (walk_reached-Same fuel root)
