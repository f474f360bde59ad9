-- ===== src/Layer/ConfinedEntry.antt =====
-- oci/layer/tar_extract.go: the place of an entry and what is done before it is created, and the root of
-- the extraction.
use umoci.Base.{
  ◌≡◌, refl, inl, inr, Bool, true, false, not, ◌&&◌, String, none, some, List, [], ◌∷◌, Text,
  text_eq, All, Bool-cases, arith,
}
use umoci.Base.Dict.{Dict, insert}
use umoci.Base.Errors.{GoError, wrapped}
use umoci.Base.Result.{Result, ok, err, Returns, Returns-ok, Result-cases}
use umoci.Base.Program.{
  done, fail, ◌>>=◌, ◌>>◌, attempt, returning, explain, Respects, IsPreorder, Respects-bind,
  Respects-explain, Respects-handle, Respects-if,
}
use umoci.FilePath.{enter}
use umoci.Unpriv.Os.{FileInfo, is_gone, is_not_supported}
use umoci.Layer.Paths.{Components, same_path, clean_path, join_file, rel_path}
use umoci.Layer.Extractor.{TypeFlag, TarHeader, TarExtractor, Env, is_loop}
use umoci.Layer.Create.{Place, is_dir_flag, split_last}
use umoci.Layer.Entry.{
  leads_to_dir, is_dirlink, entry_place, read_xattrs, xattr_names, link_text, directory_header,
  with_xattrs, describe, parent_header, kept_dirlink, remove_unless, clobber,
}
use umoci.Layer.Inside.{IsProper, clean_path-IsProper, join_file-IsProper}
use umoci.Layer.Guarded.{Calm, At, Where, Calm-IsPreorder, At-IsPreorder}
use umoci.Layer.Confined.{Confines}
use umoci.Layer.ConfinedCreate.{InPlace}

and_false : (b : Bool) → (b && false) ≡ false
and_false true = refl
and_false false = refl

module _ {S : Type 0} (R : S → S → Type 0) (Real : S → Components → Type 0) (root : Components)
    (E : Env S) (te : TarExtractor S) (C : Confines R Real root te.fs_eval E) where
  P : IsPreorder (Calm R Real)
  P = Calm-IsPreorder R Real C.preorder

  leads_to_dir-R : (target : Components) → Respects (Calm R Real) (leads_to_dir E te target)
  leads_to_dir-R target =
      Respects-handle P (te.fs_eval.lstat target) _ _ (C.lstat-R target) (λ fi. P.same)
        (λ e. Respects-if P (is_gone e) (done false) (fail e) P.same P.same)

  is_dirlink-R : (path : Components) → Respects (Calm R Real) (is_dirlink E te root path)
  unfolding is_dirlink
  is_dirlink-R path =
      Respects-bind P (explain "read dirlink" (te.fs_eval.readlink path)) _
        (Respects-explain P "read dirlink" _ (C.readlink-R path))
        (λ u.
          Respects-handle P (E.secure_join te.fs_eval root (rel_path root path)) _ _
            (C.secure_join-R (rel_path root path)) leads_to_dir-R
            (λ e.
              Respects-if P (is_loop e) (done false) (fail (wrapped "sanitize old target" e)) P.same
                P.same))

  pub entry_place-R : (hdr : TarHeader) → Respects (Calm R Real) (entry_place E te root hdr)
  unfolding entry_place
  entry_place-R hdr =
      let parts = split_last (clean_path hdr.owner.name) in
      Respects-if P (same_path (clean_path hdr.owner.name) [] && not (is_dir_flag hdr.typeflag))
        (fail _)
        (explain "sanitise symlinks in root" (E.secure_join te.fs_eval root parts.0) >>= λ d.
          done (record { dir = d; file = parts.1; path = join_file d parts.1 }))
        P.same
        (Respects-bind P
          (explain "sanitise symlinks in root" (E.secure_join te.fs_eval root parts.0)) _
          (Respects-explain P "sanitise symlinks in root" _ (C.secure_join-R parts.0))
          (λ d. P.same))

  -- The last component of the entry's name.
  abbrev pub last_of : TarHeader → Text
  last_of hdr = (split_last (clean_path hdr.owner.name)).1

  -- The place of an entry: in a real directory, with the last component of the name.
  pub record Placed (hdr : TarHeader) (t : S) (p : Place) : Type 0 where
    pub dir_real : Real t p.dir
    pub in_place : InPlace hdr.typeflag p
    pub named : p.file ≡ last_of hdr

  joined-InPlace :
      (flag : TypeFlag) (name d : Components)
      → All IsProper name
      → (same_path name [] && not (is_dir_flag flag)) ≡ false
      → InPlace flag
          (record { dir = d; file = (split_last name).1; path = join_file d (split_last name).1 })
  unfolding join_file enter same_path text_eq
  joined-InPlace flag [] d proper h = record { near = inl refl; below = λ e. ground arith }
  joined-InPlace flag (c ∷ up) d proper h = record {
    near = inr (c, join_file-IsProper d c proper.0);
    below = λ e. (c, join_file-IsProper d c proper.0);
  }

  pub entry_place-Placed :
      (hdr : TarHeader) (s : S)
      → Returns (Placed hdr (entry_place E te root hdr s).1) (entry_place E te root hdr s).0
  unfolding entry_place
  entry_place-Placed hdr s =
      elim (Bool-cases
        (same_path (clean_path hdr.owner.name) [] && not (is_dir_flag hdr.typeflag))) [
          | inl h ↦ rw h tt
          | inr h ↦ elim (Result-cases (E.secure_join te.fs_eval root upper s).0) [
            | inr (e, q) ↦ rw (h, q) tt
            | inl (d, q) ↦
                rw (h, q)
                  (record {
                    dir_real =
                        Returns-ok (λ d. Real (E.secure_join te.fs_eval root upper s).1 d)
                          (E.secure_join te.fs_eval root upper s).0 (C.secure_join-Real upper s) q;
                    in_place =
                        joined-InPlace hdr.typeflag (clean_path hdr.owner.name) d
                          (clean_path-IsProper hdr.owner.name) h;
                    named = refl;
                  })
          ]
        ]
    where
      upper : Components
      upper = (split_last (clean_path hdr.owner.name)).0

  read_xattrs-R :
      (d : Components) (names : List String) (read : Dict Text)
      → Respects (Calm R Real) (read_xattrs E te d names read)
  unfolding read_xattrs
  read_xattrs-R d [] read = P.same
  read_xattrs-R d (name ∷ names) read =
      Respects-bind P (explain "get xattr" (te.fs_eval.lgetxattr d name)) _
        (Respects-explain P "get xattr" _ (C.lgetxattr-R d name))
        (λ value. read_xattrs-R d names (insert name value read))

  xattr_names-R : (d : Components) → Respects (Calm R Real) (xattr_names E te d)
  xattr_names-R d =
      Respects-handle P (te.fs_eval.llistxattr d) _ _ (C.llistxattr-R d) (λ ns. P.same)
        (λ e.
          Respects-if P (is_not_supported e) (done []) (fail (wrapped "get dirHdr.Xattrs" e)) P.same
            P.same)

  with_xattrs-R :
      (d : Components) (hdr : TarHeader) → Respects (Calm R Real) (with_xattrs E te d hdr)
  with_xattrs-R d hdr =
      Respects-bind P (xattr_names E te d)
        (λ names. read_xattrs E te d names [] >>= λ attrs.
          done (some (directory_header E te hdr names attrs)))
        (xattr_names-R d)
        (λ names.
          Respects-bind P (read_xattrs E te d names [])
            (λ attrs. done (some (directory_header E te hdr names attrs)))
            (read_xattrs-R d names []) (λ attrs. P.same))

  describe-R : (d : Components) (fi : FileInfo) → Respects (Calm R Real) (describe E te d fi)
  describe-R d fi =
      Respects-bind P (attempt (te.fs_eval.readlink d))
        (λ target.
          explain "convert dirFi to dirHdr"
            (returning (E.file_info_header fi (link_text E te target)))
          >>= with_xattrs E te d)
        (C.readlink-R d)
        (λ target.
          Respects-bind P
            (explain "convert dirFi to dirHdr"
              (returning (E.file_info_header fi (link_text E te target))))
            (with_xattrs E te d)
            (Respects-explain P "convert dirFi to dirHdr"
              (returning (E.file_info_header fi (link_text E te target))) P.same)
            (with_xattrs-R d))

  pub parent_header-R : (p : Place) → Respects (Calm R Real) (parent_header E te p)
  unfolding parent_header
  parent_header-R p =
      Respects-handle P (te.fs_eval.lstat p.dir) _ _ (C.lstat-R p.dir)
        (λ fi.
          Respects-if P (same_path p.path p.dir) (done none) (describe E te p.dir fi) P.same
            (describe-R p.dir fi))
        (λ e. P.same)

  kept_dirlink-R :
      (p : Place) (hdr : TarHeader) (fi : FileInfo)
      → Respects (Calm R Real) (kept_dirlink E te root p hdr fi)
  kept_dirlink-R p hdr fi =
      Respects-if P (te.keep_dirlinks && fi.is_symlink && is_dir_flag hdr.typeflag)
        (explain "check is dirlink" (is_dirlink E te root p.path)) (done false)
        (Respects-explain P "check is dirlink" _ (is_dirlink-R p.path)) P.same

  module _ (p : Place) where
    A : IsPreorder (Where R Real (At R Real p.path))
    A = At-IsPreorder R Real C.preorder p.path

    removed :
        Respects
          (Where R Real (At R Real p.path))
          (explain "clobber old path" (te.fs_eval.remove_all p.path))
    removed =
        Respects-explain A "clobber old path" (te.fs_eval.remove_all p.path) (C.remove_all-R p.path)

    remove_unless-R :
        (dirlink : Bool) → Respects (Where R Real (At R Real p.path)) (remove_unless E te dirlink p)
    remove_unless-R dirlink =
        Respects-if A (dirlink && te.keep_dirlinks) (done dirlink)
          (explain "clobber old path" (te.fs_eval.remove_all p.path) >> done dirlink) A.same
          (Respects-bind A (explain "clobber old path" (te.fs_eval.remove_all p.path))
            (λ u. done dirlink) removed (λ u. A.same))

    pub clobber-R :
        (hdr : TarHeader) (fi : FileInfo)
        → Respects (Where R Real (At R Real p.path)) (clobber E te root p hdr fi)
    unfolding clobber
    clobber-R hdr fi =
        Respects-if A (fi.is_dir && is_dir_flag hdr.typeflag) (done false)
          (kept_dirlink E te root p hdr fi >>= λ dirlink. remove_unless E te dirlink p) A.same
          (Respects-bind A (kept_dirlink E te root p hdr fi)
            (λ dirlink. remove_unless E te dirlink p) (λ s i. kept_dirlink-R p hdr fi s)
            remove_unless-R)

    -- Where no directory is to be made, what stood at the path is gone.
    pub clobber-Real :
        (hdr : TarHeader) (fi : FileInfo) (s : S) {b : Bool}
        → At R Real p.path s
        → is_dir_flag hdr.typeflag ≡ false
        → (clobber E te root p hdr fi s).0 ≡ ok b
        → Real (clobber E te root p hdr fi s).1 p.path
    unfolding clobber
    clobber-Real hdr fi s near flag h = elim (Result-cases (te.fs_eval.remove_all p.path s).0) [
      | inl (u, q) ↦
          rw (flag, and_false fi.is_dir, and_false (te.keep_dirlinks && fi.is_symlink), q)
            (C.remove_all-Real p.path s near q)
      | inr (e, q) ↦ absurd (
          failed
            (rw (flag, and_false fi.is_dir, and_false (te.keep_dirlinks && fi.is_symlink), q) at h))
    ]
      where
        failed : {b : Bool} {e : GoError} → ◌≡◌ {A = Result GoError Bool} (err e) (ok b) → ⊥
        failed k = cc
