-- ===== src/Layer/ConfinedLayer.antt =====
-- oci/layer/tar_extract.go and unpack.go: entries and layers, and the root of the extraction.
use umoci.Base.{
  ℕ, ◌≡◌, refl, ◌∙◌, inl, inr, Bool, false, Option, none, some, List, [], ◌∷◌, All, has_prefix,
}
use umoci.Base.Errors.{GoError}
use umoci.Base.Result.{Returns-ok, Result-cases}
use umoci.Base.Program.{
  Program, done, ◌>>=◌, ◌>>◌, attempt, explain, finally, and_finally, Respects, IsPreorder,
  Respects-bind, Respects-explain, Respects-if, Respects-finally, Respects-and_finally,
}
use umoci.Unpriv.Os.{FileInfo}
use umoci.Layer.Paths.{Components, clean_path, rel_path}
use umoci.Layer.Extractor.{
  TarHeader, WhiteoutMode, oci_standard, overlay_fs, other_mode, TarExtractor, Env, wh_prefix,
}
use umoci.Layer.Metadata.{restore_metadata, apply_metadata}
use umoci.Layer.Whiteout.{oci_whiteout, overlay_fs_whiteout}
use umoci.Layer.Create.{Place, is_dir_flag, is_link_flag, split_last, create_entry, close_last}
use umoci.Layer.Entry.{
  ancestors, entry_place, parent_header, clobber, finish_entry, create_at, known_info, unpack_path,
  unpack_whiteout, unpack_at, on_disk, add_upper, restore_parent, unpack_entry, unpack_layer,
}
use umoci.Layer.Inside.{Near, IsContained}
use umoci.Layer.Guarded.{At, Where, KeepsDir, near_At, KeepsDir-IsPreorder, real_kept, calm_kept}
use umoci.Layer.Confined.{Confines, restore_metadata-R, apply_metadata-R}
use umoci.Layer.ConfinedWhiteout.{oci_whiteout-R, overlay_fs_whiteout-R}
use umoci.Layer.ConfinedCreate.{InPlace, create_entry-R}
use umoci.Layer.ConfinedEntry.{
  Placed, entry_place-R, entry_place-Placed, parent_header-R, clobber-R, clobber-Real,
}

module _ {S : Type 0} (R : S → S → Type 0) (Real : S → Components → Type 0) (root : Components)
    (E : Env S) where
  module _ (te : TarExtractor S) (C : Confines R Real root te.fs_eval E) (p : Place) where
    -- The relation holds, and the directory of the place stays real.
    abbrev K : S → S → Type 0
    K = KeepsDir R Real p.dir

    P : IsPreorder K
    P = KeepsDir-IsPreorder R Real C.preorder p.dir

    -- A program that is calm at the directory itself.
    at_dir :
        {A : Type 0} (m : Program S A) → Respects (Where R Real (At R Real p.dir)) m → Respects K m
    at_dir m h s real = let calm = h s (inl real) in (calm.0, calm.1 p.dir real)

    finish_entry-R : (hdr : TarHeader) → Near p.dir p.path → Respects K (finish_entry E te p hdr)
    finish_entry-R hdr near =
        Respects-if P (is_link_flag hdr.typeflag) (done tt)
          (explain "apply hdr metadata" (apply_metadata E te p.path hdr)) P.same
          (Respects-explain P "apply hdr metadata" (apply_metadata E te p.path hdr) (λ s real.
            let calm =
              apply_metadata-R R Real root E te C p.path hdr s
                (near_At R Real p.dir p.path s near real) in
            (calm.0, calm.1 p.dir real)))

    close_last-R : (o : Option ℕ) → Respects K (close_last E te o)
    close_last-R none = P.same
    close_last-R (some fh) = calm_kept R Real C.preorder p.dir (E.close_file fh) (C.close_file-R fh)

    -- What follows the creation of the path.
    created_then :
        (hdr : TarHeader) (left_open : Option ℕ)
        → Near p.dir p.path
        → Respects K (
            finally (finish_entry E te p hdr) (close_last E te left_open)
            >> done (ancestors (rel_path root p.path)))
    created_then hdr left_open near =
        Respects-bind P (finally (finish_entry E te p hdr) (close_last E te left_open))
          (λ u. done (ancestors (rel_path root p.path)))
          (Respects-finally P (finish_entry E te p hdr) (close_last E te left_open)
            (finish_entry-R hdr near) (close_last-R left_open))
          (λ u. P.same)

    create_at-R :
        (fuel : ℕ) (hdr : TarHeader) (dirlink : Bool) (s : S)
        → InPlace hdr.typeflag p
        → (is_dir_flag hdr.typeflag ≡ false → Real s p.path)
        → K s (create_at E te fuel root p hdr dirlink s).1
    create_at-R fuel hdr dirlink s i real dir_real =
        let made = create_entry-R R Real root E te C fuel p hdr dirlink s i dir_real real in
        elim (Result-cases (create_entry E te fuel root p hdr dirlink s).0) [
          | inr (e, q) ↦ rw q made
          | inl (o, q) ↦
              let t = (create_entry E te fuel root p hdr dirlink s).1 in
              let after = created_then hdr o i.near t made.1 in
              rw q (C.preorder.chain made.0 after.0, after.1)
        ]

    clobber_then :
        (fuel : ℕ) (hdr : TarHeader) (fi : FileInfo)
        → InPlace hdr.typeflag p
        → Respects K (clobber E te root p hdr fi >>= create_at E te fuel root p hdr)
    clobber_then fuel hdr fi i s real =
        let near = near_At R Real p.dir p.path s i.near real in
        let calm = clobber-R R Real root E te C p hdr fi s near in
        elim (Result-cases (clobber E te root p hdr fi s).0) [
          | inr (e, q) ↦ rw q (calm.0, calm.1 p.dir real)
          | inl (b, q) ↦
              let t = (clobber E te root p hdr fi s).1 in
              let after =
                create_at-R fuel hdr b t i
                  (λ flag. clobber-Real R Real root E te C p hdr fi s near flag q)
                  (calm.1 p.dir real) in
              rw q (C.preorder.chain calm.0 after.0, after.1)
        ]

    unpack_path-R :
        (fuel : ℕ) (hdr : TarHeader)
        → InPlace hdr.typeflag p
        → Respects K (unpack_path E te fuel root p hdr)
    unfolding unpack_path
    unpack_path-R fuel hdr i =
        Respects-bind P (attempt (te.fs_eval.lstat p.path))
          (λ r.
            explain "mkdir parent" (te.fs_eval.mkdir_all p.dir 0o777)
            >> clobber E te root p hdr (known_info E te hdr r)
            >>= create_at E te fuel root p hdr)
          (calm_kept R Real C.preorder p.dir (te.fs_eval.lstat p.path) (C.lstat-R p.path))
          (λ r.
            Respects-bind P (explain "mkdir parent" (te.fs_eval.mkdir_all p.dir 0o777))
              (λ u.
                clobber E te root p hdr (known_info E te hdr r) >>= create_at E te fuel root p hdr)
              (Respects-explain P "mkdir parent" (te.fs_eval.mkdir_all p.dir 0o777)
                (at_dir (te.fs_eval.mkdir_all p.dir 0o777) (C.mkdir_all-R p.dir 0o777)))
              (λ u. clobber_then fuel hdr (known_info E te hdr r) i))

    -- A whiteout, by the mode.
    whiteout-R :
        (m : WhiteoutMode) → IsContained p.file → Respects K (unpack_whiteout E te m root p)
    whiteout-R oci_standard plain =
        Respects-bind P (oci_whiteout te root p.dir p.file) (λ u. done [])
          (real_kept R Real C.preorder p.dir (oci_whiteout te root p.dir p.file)
            (oci_whiteout-R R Real root E te C p.dir p.file plain))
          (λ u. P.same)
    whiteout-R overlay_fs plain =
        Respects-bind P (overlay_fs_whiteout te E p.dir p.file) (λ u. done [])
          (real_kept R Real C.preorder p.dir (overlay_fs_whiteout te E p.dir p.file)
            (overlay_fs_whiteout-R R Real root E te C p.dir p.file plain))
          (λ u. P.same)
    whiteout-R (other_mode m) plain = P.same

    unpack_at-R :
        (fuel : ℕ) (hdr : TarHeader)
        → InPlace hdr.typeflag p
        → IsContained p.file
        → Respects K (unpack_at E te fuel root p hdr)
    unfolding unpack_at
    unpack_at-R fuel hdr i plain =
        Respects-if P (has_prefix p.file wh_prefix) (unpack_whiteout E te te.whiteout_mode root p)
          (unpack_path E te fuel root p hdr) (whiteout-R te.whiteout_mode plain)
          (unpack_path-R fuel hdr i)

    restore_parent-R : (o : Option TarHeader) → Respects K (restore_parent E te p o)
    restore_parent-R none = P.same
    restore_parent-R (some hdr) =
        Respects-explain P "restore parent directory" (restore_metadata E te p.dir hdr) (
          at_dir (restore_metadata E te p.dir hdr)
            (restore_metadata-R R Real root E te C p.dir hdr))

  -- The extractor keeps its calls, and the state of the file system stands in the relation.
  abbrev pub Kept : TarExtractor S × S → TarExtractor S × S → Type 0
  Kept x y = (y.0.fs_eval ≡ x.0.fs_eval) × R x.1 y.1

  -- The same, with a directory that stays real.
  abbrev KeptDir : Components → TarExtractor S × S → TarExtractor S × S → Type 0
  KeptDir d x y = (y.0.fs_eval ≡ x.0.fs_eval) × KeepsDir R Real d x.1 y.1

  KeptDir-IsPreorder : IsPreorder R → (d : Components) → IsPreorder (KeptDir d)
  KeptDir-IsPreorder Q d = record {
    same = λ x. (refl, (KeepsDir-IsPreorder R Real Q d).same x.1);
    chain = λ {s} {t} {u} h g. (g.0 ∙ h.0, (KeepsDir-IsPreorder R Real Q d).chain h.1 g.1);
  }

  -- An entry, once its place is known.
  abbrev placed : ℕ → TarExtractor S → TarHeader → Place → Program (TarExtractor S × S) (Unit {0})
  placed fuel te hdr p = on_disk E (parent_header E te p) >>= λ kept.
      and_finally (on_disk E (unpack_at E te fuel root p hdr) >>= add_upper E)
        (on_disk E (restore_parent E te p kept))

  placed-R :
      (fuel : ℕ) (te : TarExtractor S) (hdr : TarHeader) (p : Place)
      → Confines R Real root te.fs_eval E
      → InPlace hdr.typeflag p
      → IsContained p.file
      → Respects (KeptDir p.dir) (placed fuel te hdr p)
  placed-R fuel te hdr p C i plain =
      Respects-bind Q (on_disk E (parent_header E te p))
        (λ kept.
          and_finally (on_disk E (unpack_at E te fuel root p hdr) >>= add_upper E)
            (on_disk E (restore_parent E te p kept)))
        (λ x. (
          refl,
          calm_kept R Real C.preorder p.dir (parent_header E te p)
              (parent_header-R R Real root E te C p) x.1,
        ))
        (λ kept.
          Respects-and_finally Q (on_disk E (unpack_at E te fuel root p hdr) >>= add_upper E)
            (on_disk E (restore_parent E te p kept))
            (Respects-bind Q (on_disk E (unpack_at E te fuel root p hdr)) (add_upper E)
              (λ x. (refl, unpack_at-R te C p fuel hdr i plain x.1))
              (λ added x. (refl, (KeepsDir-IsPreorder R Real C.preorder p.dir).same x.1)))
            (λ x. (refl, restore_parent-R te C p kept x.1)))
    where
      Q : IsPreorder (KeptDir p.dir)
      Q = KeptDir-IsPreorder C.preorder p.dir

  pub unpack_entry-Confined :
      (fuel : ℕ) (te : TarExtractor S) (hdr : TarHeader) (s : S)
      → Confines R Real root te.fs_eval E
      → IsContained (split_last (clean_path hdr.owner.name)).1
      → Kept (te, s) (unpack_entry E fuel root hdr (te, s)).1
  unfolding unpack_entry
  unpack_entry-Confined fuel te hdr s C plain =
      let calm = entry_place-R R Real root E te C hdr s in
      elim (Result-cases (entry_place E te root hdr s).0) [
        | inr (e, q) ↦ rw q (refl, calm.0)
        | inl (p, q) ↦
            let t = (entry_place E te root hdr s).1 in
            let known =
              Returns-ok (Placed R Real root E te C hdr t) (entry_place E te root hdr s).0
                (entry_place-Placed R Real root E te C hdr s) q in
            let after = placed-R fuel te hdr p C known.in_place (rw known.named plain) (te, t) in
            rw q (after.0, C.preorder.chain calm.0 (after.1 known.dir_real).0)
      ]

  -- Where every call keeps a relation of states, as that all outside of the root is the same, as long
  -- as no symbolic link leads it out (for Chmod and Create one at the path or above it, for the others
  -- one above it), SecureJoinVFS returns a directory with no link at it or above it, Walk follows none,
  -- and Lstat fails only where there is nothing: UnpackLayer keeps the relation, and the calls of its
  -- extractor, whatever the headers and the links in the tree are and wherever it stops, if no entry is a
  -- whiteout of "..".
  pub unpack_layer-Confined :
      (fuel : ℕ) (te : TarExtractor S) (hdrs : List TarHeader) (last : Option GoError) (s : S)
      → Confines R Real root te.fs_eval E
      → All (λ hdr. IsContained (split_last (clean_path hdr.owner.name)).1) hdrs
      → Kept (te, s) (unpack_layer E fuel root hdrs last (te, s)).1
  unfolding unpack_layer
  unpack_layer-Confined fuel te [] none s C plain = (refl, C.preorder.same s)
  unpack_layer-Confined fuel te [] (some e) s C plain = (refl, C.preorder.same s)
  unpack_layer-Confined fuel te (hdr ∷ hdrs) last s C plain =
      let entry = unpack_entry-Confined fuel te hdr s C plain.0 in
      elim (Result-cases (unpack_entry E fuel root hdr (te, s)).0) [
        | inr (e, q) ↦ rw q entry
        | inl (u, q) ↦
            let after = (unpack_entry E fuel root hdr (te, s)).1 in
            let rest =
              unpack_layer-Confined fuel after.0 hdrs last after.1 (rw entry.0 C) plain.1 in
            rw q (rest.0 ∙ entry.0, C.preorder.chain entry.1 rest.1)
      ]
