-- ===== src/Layer/Confined.antt =====
-- oci/layer/tar_extract.go: metadata, and the root of the extraction.
use umoci.Base.{
  ℕ, ◌≡◌, refl, inl, inr, Bool, true, false, ◌&&◌, ◌||◌, String, Option, none, some, List, [], ◌∷◌,
  Text, if◌then◌else◌,
}
use umoci.Base.Dict.{Dict}
use umoci.Base.Int.{ℤ}
use umoci.Base.Errors.{GoError, wrapped}
use umoci.Base.Result.{Result, ok, err, Returns, Result-cases}
use umoci.Base.Program.{
  Program, done, fail, ◌>>=◌, ◌>>◌, attempt, explain, Respects, IsPreorder, Respects-bind,
  Respects-explain, Respects-handle, Respects-if,
}
use umoci.FsEval.{FsEval}
use umoci.Unpriv.Os.{FileInfo, is_permission, is_not_supported, Visit}
use umoci.Layer.Header.{Header, HeaderError, unmap_header, xattrs_of}
use umoci.Layer.Paths.{Components}
use umoci.Layer.Extractor.{TarHeader, TarExtractor, Env, ignore_xattrs, header_error}
use umoci.Layer.Metadata.{
  listed, is_symlink_flag, time_or, mtime_of, set_owner, set_mode, set_allowed, set_xattr,
  set_xattrs, clear_xattrs, restore_metadata, apply_metadata,
}
use umoci.Layer.Guarded.{
  Calm, At, Where, KeepsDir, Calm-IsPreorder, Real-IsPreorder, At-Calm, At-IsPreorder,
}

-- What the calls promise. One that reads, or has an open file, is calm. One that writes to a path without
-- following a link there is calm in a real directory; Chmod and Create, which follow it, are where the
-- path is real. Symlink and Link keep the relation and the directory that they write to. Lstat and
-- RemoveAll tell that a path is no link, SecureJoinVFS returns a real one, and Walk, which follows no
-- link, calls its function at paths of real directories as long as the function is calm there.
pub record Confines {S : Type 0} (R : S → S → Type 0) (Real : S → Components → Type 0)
    (root : Components) (F : FsEval Components S) (E : Env S) : Type 0 where
  pub preorder : IsPreorder R
  pub lstat-R : (p : Components) → Respects (Calm R Real) (F.lstat p)
  pub readlink-R : (p : Components) → Respects (Calm R Real) (F.readlink p)
  pub llistxattr-R : (p : Components) → Respects (Calm R Real) (F.llistxattr p)
  pub lgetxattr-R : (p : Components) (n : String) → Respects (Calm R Real) (F.lgetxattr p n)
  pub lstat-Real :
      (p : Components) (s : S) {fi : FileInfo}
      → At R Real p s
      → (F.lstat p s).0 ≡ ok fi
      → fi.is_symlink ≡ false
      → Real (F.lstat p s).1 p
  -- Where Lstat fails there is nothing, and so no link.
  pub lstat-Real_err :
      (p : Components) (s : S) {e : GoError}
      → At R Real p s
      → (F.lstat p s).0 ≡ err e
      → Real (F.lstat p s).1 p
  pub chmod-R : (p : Components) (m : ℕ) → Respects (Where R Real (λ s. Real s p)) (F.chmod p m)
  pub create-R : (p : Components) → Respects (Where R Real (λ s. Real s p)) (F.create p)
  pub lutimes-R :
      (p : Components) (a m : ℕ) → Respects (Where R Real (At R Real p)) (F.lutimes p a m)
  pub remove_all-R : (p : Components) → Respects (Where R Real (At R Real p)) (F.remove_all p)
  pub remove_all-Real :
      (p : Components) (s : S)
      → At R Real p s
      → (F.remove_all p s).0 ≡ ok tt
      → Real (F.remove_all p s).1 p
  pub mkdir_all-R :
      (p : Components) (m : ℕ) → Respects (Where R Real (At R Real p)) (F.mkdir_all p m)
  pub mknod-R : (p : Components) (m d : ℕ) → Respects (Where R Real (At R Real p)) (F.mknod p m d)
  pub lsetxattr-R :
      (p : Components) (n : String) (v : Text)
      → Respects (Where R Real (At R Real p)) (F.lsetxattr p n v)
  pub lclearxattrs-R :
      (p : Components) (ns : List String)
      → Respects (Where R Real (At R Real p)) (F.lclearxattrs p ns)
  pub symlink-R :
      (target c : Text) (d : Components) → Respects (KeepsDir R Real d) (F.symlink target (c ∷ d))
  pub link-R :
      (old : Components) (c : Text) (d : Components) (s : S)
      → At R Real old s
      → KeepsDir R Real d s (F.link old (c ∷ d) s).1
  pub walk-R :
      (p : Components) (fn : Components → Visit → Program S (Unit {0}))
      → ((q : Components) (v : Visit) → Respects (Where R Real (At R Real q)) (fn q v))
      → Respects (Where R Real (At R Real p)) (F.walk p fn)
  pub secure_join-R : (p : Components) → Respects (Calm R Real) (E.secure_join F root p)
  pub secure_join-Real :
      (p : Components) (s : S)
      → Returns (λ d. Real (E.secure_join F root p s).1 d) (E.secure_join F root p s).0
  pub lchown-R : (p : Components) (u g : ℤ) → Respects (Where R Real (At R Real p)) (E.lchown p u g)
  pub os_remove_all-R : (p : Components) → Respects (Where R Real (At R Real p)) (E.os_remove_all p)
  pub now-R : Respects (Calm R Real) E.now
  pub close_file-R : (fh : ℕ) → Respects (Calm R Real) (E.close_file fh)
  pub chmod_file-R : (fh m : ℕ) → Respects (Calm R Real) (E.chmod_file fh m)
  pub copy_buffer-R : (fh : ℕ) → Respects (Calm R Real) (E.copy_buffer fh)

module _ {S : Type 0} (R : S → S → Type 0) (Real : S → Components → Type 0) (root : Components)
    (E : Env S) (te : TarExtractor S) (C : Confines R Real root te.fs_eval E) where
  -- The condition Φ of the state, which is that a path is one of a real directory, or real.
  module _ (Φ : S → Type 0) (pre : IsPreorder (Where R Real Φ)) where
    abbrev W : S → S → Type 0
    W = Where R Real Φ

    done-R : {A : Type 0} (a : A) → Respects W (done a)
    done-R a = pre.same

    -- An error that is dropped in one case.
    spared : (c : Bool) (e : GoError) → Respects W (if c then done tt else fail e)
    spared c e = Respects-if pre c _ _ (done-R tt) pre.same

    calm : {A : Type 0} (m : Program S A) → Respects (Calm R Real) m → Respects W m
    calm m h s i = h s

    module _ (path : Components) (near : (s : S) → Φ s → At R Real path s) where
      -- A call that is calm at the path.
      at :
          {A : Type 0} (m : Program S A) → Respects (Where R Real (At R Real path)) m → Respects W m
      at m h s i = h s (near s i)

      set_allowed-R : (name : String) (value : Text) → Respects W (set_allowed E te path name value)
      set_allowed-R name value =
          Respects-handle pre (te.fs_eval.lsetxattr path name value) _ _
            (at (te.fs_eval.lsetxattr path name value) (C.lsetxattr-R path name value))
            (λ u. done-R tt)
            (λ e.
              spared ((te.partial_rootless && is_permission e) || is_not_supported e)
                (wrapped "restore xattr metadata" e))

      set_xattr-R : (name : String) (value : Text) → Respects W (set_xattr E te path name value)
      unfolding set_xattr
      set_xattr-R name value =
          Respects-if pre (listed ignore_xattrs name)
            (attempt (te.fs_eval.lgetxattr path name) >> done tt) (set_allowed E te path name value)
            (calm (te.fs_eval.lgetxattr path name) (C.lgetxattr-R path name))
            (set_allowed-R name value)

      set_xattrs-R : (m : Dict Text) → Respects W (set_xattrs E te path m)
      unfolding set_xattrs
      set_xattrs-R [] = done-R tt
      set_xattrs-R ((name, value) ∷ more) =
          Respects-bind pre (set_xattr E te path name value) _ (set_xattr-R name value)
            (λ u. set_xattrs-R more)

      clear_xattrs-R : Respects W (clear_xattrs E te path)
      unfolding clear_xattrs
      clear_xattrs-R =
          Respects-handle pre (te.fs_eval.lclearxattrs path ignore_xattrs) _ _
            (at (te.fs_eval.lclearxattrs path ignore_xattrs) (C.lclearxattrs-R path ignore_xattrs))
            (λ u. done-R tt) (λ e. spared (is_not_supported e) (wrapped "clear xattr metadata" e))

      mtime_of-R : (hdr : TarHeader) → Respects W (mtime_of E te hdr)
      mtime_of-R hdr = by_time hdr.mod_time
        where
          by_time : (o : Option ℕ) → Respects W (elim o [ some t ↦ done t | none ↦ E.now ])
          by_time none = calm E.now C.now-R
          by_time (some t) = done-R t

      set_owner-R : (hdr : TarHeader) → Respects W (set_owner E te path hdr)
      set_owner-R hdr =
          Respects-if pre te.map_options.rootless (done tt)
            (explain "restore chown metadata" (E.lchown path hdr.owner.uid hdr.owner.gid))
            (done-R tt)
            (Respects-explain pre "restore chown metadata" _ (
              at (E.lchown path hdr.owner.uid hdr.owner.gid)
                (C.lchown-R path hdr.owner.uid hdr.owner.gid)))

      -- What restoreMetadata does once it knows whether there is a link.
      abbrev knowing : TarHeader → Bool → Program S (Unit {0})
      knowing hdr is_symlink =
          set_owner E te path hdr
          >> set_mode E te path hdr is_symlink
          >> mtime_of E te hdr
          >>= λ mtime.
              clear_xattrs E te path
              >> set_xattrs E te path (xattrs_of E.proto hdr.owner)
              >> explain "restore lutimes metadata"
                  (te.fs_eval.lutimes path (time_or hdr.access_time mtime) mtime)

      knowing-R :
          (hdr : TarHeader) (b : Bool)
          → Respects W (set_mode E te path hdr b)
          → Respects W (knowing hdr b)
      knowing-R hdr b mode_set =
          Respects-bind pre (set_owner E te path hdr) _ (set_owner-R hdr) (λ u.
            Respects-bind pre (set_mode E te path hdr b) _ mode_set (λ u.
              Respects-bind pre (mtime_of E te hdr) _ (mtime_of-R hdr) (λ mtime.
                Respects-bind pre (clear_xattrs E te path) _ clear_xattrs-R (λ u.
                  Respects-bind pre (set_xattrs E te path (xattrs_of E.proto hdr.owner)) _
                    (set_xattrs-R (xattrs_of E.proto hdr.owner))
                    (λ u. Respects-explain pre "restore lutimes metadata" _ (
                      at (te.fs_eval.lutimes path (time_or hdr.access_time mtime) mtime)
                        (C.lutimes-R path (time_or hdr.access_time mtime) mtime)))))))

  module _ (path : Components) where
    atp : IsPreorder (Where R Real (At R Real path))
    atp = At-IsPreorder R Real C.preorder path

    realp : IsPreorder (Where R Real (λ s. Real s path))
    realp = Real-IsPreorder R Real C.preorder path

    linked :
        (hdr : TarHeader)
        → Respects
            (Where R Real (At R Real path))
            (knowing (At R Real path) atp path (λ s i. i) hdr true)
    linked hdr = knowing-R (At R Real path) atp path (λ s i. i) hdr true atp.same

    unlinked :
        (hdr : TarHeader)
        → Respects
            (Where R Real (λ s. Real s path))
            (knowing (λ s. Real s path) realp path (λ s i. inl i) hdr false)
    unlinked hdr =
        knowing-R (λ s. Real s path) realp path (λ s i. inl i) hdr false
          (Respects-explain realp "restore chmod metadata" _
            (C.chmod-R path (E.file_info hdr).mode))

    -- From a state in which the path, if it is no link, is real.
    knowing_either :
        (hdr : TarHeader) (b : Bool) (s : S)
        → At R Real path s
        → (b ≡ false → Real s path)
        → Calm R Real s (knowing (At R Real path) atp path (λ s i. i) hdr b s).1
    knowing_either hdr true s i real = linked hdr s i
    knowing_either hdr false s i real = unlinked hdr s (real refl)

    pub restore_metadata-R :
        (hdr : TarHeader)
        → Respects (Where R Real (At R Real path)) (restore_metadata E te path hdr)
    unfolding restore_metadata
    restore_metadata-R hdr s i = elim (Result-cases (te.fs_eval.lstat path s).0) [
      | inl (fi, q) ↦ rw q (
          Q.chain (C.lstat-R path s) (
            knowing_either hdr fi.is_symlink (te.fs_eval.lstat path s).1
              (At-Calm R Real C.preorder path (C.lstat-R path s) i)
              (λ e. C.lstat-Real path s i q e)))
      | inr (e, q) ↦ rw q (
          Q.chain (C.lstat-R path s) (
            knowing_either hdr (is_symlink_flag hdr.typeflag) (te.fs_eval.lstat path s).1
              (At-Calm R Real C.preorder path (C.lstat-R path s) i)
              (λ f. C.lstat-Real_err path s i q)))
    ]
      where
        Q : IsPreorder (Calm R Real)
        Q = Calm-IsPreorder R Real C.preorder

    pub apply_metadata-R :
        (hdr : TarHeader) → Respects (Where R Real (At R Real path)) (apply_metadata E te path hdr)
    unfolding apply_metadata
    apply_metadata-R hdr = by_owner (unmap_header E.proto te.map_options hdr.owner)
      where
        by_owner :
            (r : Result HeaderError Header)
            → Respects (Where R Real (At R Real path)) (elim r [
              | err e ↦ fail (wrapped "unmap header" (header_error e))
              | ok owner ↦ restore_metadata E te path (record hdr { owner = owner })
            ])
        by_owner (err e) = atp.same
        by_owner (ok owner) = restore_metadata-R (record hdr { owner = owner })
