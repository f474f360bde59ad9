-- ===== src/Layer/UpperPaths.antt =====
-- oci/layer/tar_extract.go and unpack.go: the upper paths of the extractor.
use umoci.Base.{
  ℕ, ◌≡◌, ap, ◌∙◌, Bool, true, false, ◌||◌, List, [], ◌∷◌, Option, none, some, has_prefix,
  if◌then◌else◌,
}
use umoci.Base.Errors.{GoError}
use umoci.Base.Program.{
  Program, ◌>>=◌, ◌>>◌, attempt, explain, finally, Respects, IsPreorder, Respects-bind,
  Respects-value, Respects-and_finally, Respects-explain, Yields, Yields-then,
}
use umoci.Layer.Paths.{Components, is_member, rel_path}
use umoci.Layer.PathLaws.{IsClosed, IsClosed-append, ancestors-IsClosed, is_member-append, or_true}
use umoci.Layer.Extractor.{
  TarHeader, WhiteoutMode, oci_standard, overlay_fs, other_mode, TarExtractor, Env, wh_prefix,
}
use umoci.Layer.Whiteout.{oci_whiteout, overlay_fs_whiteout}
use umoci.Layer.Create.{Place, create_entry, close_last}
use umoci.Layer.Entry.{
  entry_place, parent_header, clobber, finish_entry, create_at, known_info, unpack_path,
  unpack_whiteout, unpack_at, on_disk, add_upper, restore_parent, unpack_entry, unpack_layer,
}

module _ {S : Type 0} (E : Env S) (root : Components) where
  no_paths : IsClosed []
  unfolding is_member
  no_paths c up h = cc

  module _ (te : TarExtractor S) where
    create_at-IsClosed :
        (fuel : ℕ) (p : Place) (hdr : TarHeader) (dirlink : Bool)
        → Yields IsClosed (create_at E te fuel root p hdr dirlink)
    create_at-IsClosed fuel p hdr dirlink =
        Yields-then IsClosed (create_entry E te fuel root p hdr dirlink) _ (λ left_open.
          Yields-then IsClosed (finally (finish_entry E te p hdr) (close_last E te left_open)) _
            (λ u s. ancestors-IsClosed (rel_path root p.path)))

    unpack_path-IsClosed :
        (fuel : ℕ) (p : Place) (hdr : TarHeader)
        → Yields IsClosed (unpack_path E te fuel root p hdr)
    unfolding unpack_path
    unpack_path-IsClosed fuel p hdr =
        Yields-then IsClosed (attempt (te.fs_eval.lstat p.path))
          (λ r.
            explain "mkdir parent" (te.fs_eval.mkdir_all p.dir 0o777)
            >> clobber E te root p hdr (known_info E te hdr r)
            >>= create_at E te fuel root p hdr)
          (λ r.
            Yields-then IsClosed (explain "mkdir parent" (te.fs_eval.mkdir_all p.dir 0o777))
              (λ u.
                clobber E te root p hdr (known_info E te hdr r) >>= create_at E te fuel root p hdr)
              (λ u.
                Yields-then IsClosed (clobber E te root p hdr (known_info E te hdr r))
                  (create_at E te fuel root p hdr) (create_at-IsClosed fuel p hdr)))

    whiteout-IsClosed :
        (m : WhiteoutMode) (p : Place) → Yields IsClosed (unpack_whiteout E te m root p)
    whiteout-IsClosed oci_standard p =
        Yields-then IsClosed (oci_whiteout te root p.dir p.file) _ (λ u s. no_paths)
    whiteout-IsClosed overlay_fs p =
        Yields-then IsClosed (overlay_fs_whiteout te E p.dir p.file) _ (λ u s. no_paths)
    whiteout-IsClosed (other_mode m) p = λ s. tt

    unpack_at-IsClosed :
        (fuel : ℕ) (p : Place) (hdr : TarHeader) → Yields IsClosed (unpack_at E te fuel root p hdr)
    unfolding unpack_at
    unpack_at-IsClosed fuel p hdr = by_name (has_prefix p.file wh_prefix)
      where
        by_name :
            (c : Bool)
            → Yields IsClosed (
                if c
                then unpack_whiteout E te te.whiteout_mode root p
                else unpack_path E te fuel root p hdr)
        by_name true = whiteout-IsClosed te.whiteout_mode p
        by_name false = unpack_path-IsClosed fuel p hdr

  -- Closed upper paths stay closed, and none of them is lost.
  pub record Grows (x y : TarExtractor S × S) : Type 0 where
    pub closed : IsClosed x.0.upper_paths → IsClosed y.0.upper_paths
    pub kept :
        (p : Components) → is_member x.0.upper_paths p ≡ true → is_member y.0.upper_paths p ≡ true

  Grows-IsPreorder : IsPreorder Grows
  Grows-IsPreorder = record {
    same = λ x. record { closed = λ h. h; kept = λ p h. h };
    chain = λ {s} {t} {u} f g. record {
      closed = λ h. g.closed (f.closed h);
      kept = λ p h. g.kept p (f.kept p h);
    };
  }

  on_disk-Grows : {A : Type 0} (m : Program S A) → Respects Grows (on_disk E m)
  on_disk-Grows m x = record { closed = λ h. h; kept = λ p h. h }

  add_upper-Grows : (added : List Components) → IsClosed added → Respects Grows (add_upper E added)
  add_upper-Grows added c x = record {
    closed = λ h. IsClosed-append added x.0.upper_paths c h;
    kept = λ p h.
        is_member-append added x.0.upper_paths p
        ∙ ap (λ b. is_member added p || b) h
        ∙ or_true (is_member added p);
  }

  -- UnpackEntry, whatever the entry is and whatever fails: if the upper paths are such that the
  -- ancestors of each are among them, they still are, and no upper path is dropped.
  pub unpack_entry-Grows :
      (fuel : ℕ) (hdr : TarHeader) → Respects Grows (unpack_entry E fuel root hdr)
  unfolding unpack_entry
  unpack_entry-Grows fuel hdr x =
      Respects-bind K (on_disk E (entry_place E x.0 root hdr)) _
        (on_disk-Grows (entry_place E x.0 root hdr))
        (λ p.
          Respects-bind K (on_disk E (parent_header E x.0 p)) _
            (on_disk-Grows (parent_header E x.0 p))
            (λ kept.
              Respects-and_finally K (on_disk E (unpack_at E x.0 fuel root p hdr) >>= add_upper E)
                (on_disk E (restore_parent E x.0 p kept))
                (Respects-value K IsClosed (on_disk E (unpack_at E x.0 fuel root p hdr))
                  (add_upper E) (on_disk-Grows (unpack_at E x.0 fuel root p hdr))
                  (λ y. unpack_at-IsClosed x.0 fuel p hdr y.1) add_upper-Grows)
                (on_disk-Grows (restore_parent E x.0 p kept))))
        x
    where
      K : IsPreorder Grows
      K = Grows-IsPreorder

  -- UnpackLayer, however many entries the layer has and wherever it stops: if the upper paths are such
  -- that the ancestors of each are among them, they still are, and no upper path is dropped.
  pub unpack_layer-Grows :
      (fuel : ℕ) (hdrs : List TarHeader) (last : Option GoError)
      → Respects Grows (unpack_layer E fuel root hdrs last)
  unfolding unpack_layer
  unpack_layer-Grows fuel [] none = Grows-IsPreorder.same
  unpack_layer-Grows fuel [] (some e) = Grows-IsPreorder.same
  unpack_layer-Grows fuel (hdr ∷ hdrs) last =
      Respects-bind Grows-IsPreorder (explain "unpack entry" (unpack_entry E fuel root hdr)) _
        (Respects-explain Grows-IsPreorder "unpack entry" _ (unpack_entry-Grows fuel hdr))
        (λ u. unpack_layer-Grows fuel hdrs last)
