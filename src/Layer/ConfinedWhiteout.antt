-- ===== src/Layer/ConfinedWhiteout.antt =====
-- oci/layer/tar_extract.go: whiteouts, and the root of the extraction.
use umoci.Base.{Bool, ◌&&◌, ◌||◌, inl, Text, codes, if◌then◌else◌}
use umoci.Base.Errors.{wrapped}
use umoci.Base.Program.{
  done, fail, explain, Respects, IsPreorder, Respects-bind, Respects-explain, Respects-handle,
  Respects-if,
}
use umoci.Unpriv.Os.{is_not_exist, is_gone, skip_dir, Visit, seen, unseen}
use umoci.Layer.Paths.{Components, same_path, is_member, rel_path}
use umoci.Layer.Extractor.{TarExtractor, Env}
use umoci.Layer.Whiteout.{
  is_opaque, whiteout_target, remove_lower, oci_whiteout, remove_old, replace_by_device,
  overlay_fs_whiteout,
}
use umoci.Layer.Inside.{IsContained, whiteout_target-Near}
use umoci.Layer.Guarded.{At, Where, near_At, Real-IsPreorder, At-IsPreorder}
use umoci.Layer.Confined.{Confines}

module _ {S : Type 0} (R : S → S → Type 0) (Real : S → Components → Type 0) (root : Components)
    (E : Env S) (te : TarExtractor S) (C : Confines R Real root te.fs_eval E) where
  -- What each visit does, at a path of a real directory.
  visit-R :
      (opaque : Bool) (target p : Components) (v : Visit)
      → Respects (Where R Real (At R Real p)) (remove_lower te root opaque target p v)
  unfolding remove_lower
  visit-R opaque target p (unseen e) = (At-IsPreorder R Real C.preorder p).same
  visit-R opaque target p (seen info) =
      let pre = At-IsPreorder R Real C.preorder p in
      Respects-if pre (is_member te.upper_paths (rel_path root p) || (opaque && same_path target p))
        _ _ pre.same
        (Respects-bind pre (explain "whiteout subpath" (te.fs_eval.remove_all p))
          (λ u. if info.is_dir then fail skip_dir else done tt)
          (Respects-explain pre "whiteout subpath" (te.fs_eval.remove_all p) (C.remove_all-R p))
          (λ u. Respects-if pre info.is_dir (fail skip_dir) (done tt) pre.same pre.same))

  module _ (d : Components) (file : Text) (plain : IsContained file) where
    abbrev pub W : S → S → Type 0
    W = Where R Real (λ s. Real s d)

    pre : IsPreorder W
    pre = Real-IsPreorder R Real C.preorder d

    abbrev target : Components
    target = whiteout_target d file

    at_target : (s : S) → Real s d → At R Real target s
    at_target s = near_At R Real d target s (whiteout_target-Near d file plain)

    pub oci_whiteout-R : Respects W (oci_whiteout te root d file)
    unfolding oci_whiteout
    oci_whiteout-R =
        Respects-handle pre (te.fs_eval.lstat target) _ _ (λ s h. C.lstat-R target s)
          (λ fi. Respects-explain pre "whiteout remove" _ (λ s h.
            C.walk-R target (remove_lower te root (is_opaque file) target)
              (λ q v. visit-R (is_opaque file) target q v) s (at_target s h)))
          (λ e.
            Respects-if pre (is_gone e) (done tt) (fail (wrapped "check whiteout target" e))
              pre.same pre.same)

    remove_old-R : Respects W (remove_old te E target)
    remove_old-R =
        Respects-handle pre (E.os_remove_all target) _ _
          (λ s h. C.os_remove_all-R target s (at_target s h)) (λ u. pre.same)
          (λ e.
            Respects-if pre (is_not_exist e) (done tt)
              (fail (wrapped "couldn't create overlayfs whiteout" e)) pre.same pre.same)

    replace_by_device-R : Respects W (replace_by_device te E target)
    replace_by_device-R = Respects-bind pre (remove_old te E target) _ remove_old-R (λ u.
        Respects-explain pre "couldn't create overlayfs whiteout" _
          (λ s h. C.mknod-R target 0o020666 (E.mkdev 0 0) s (at_target s h)))

    pub overlay_fs_whiteout-R : Respects W (overlay_fs_whiteout te E d file)
    unfolding overlay_fs_whiteout
    overlay_fs_whiteout-R =
        Respects-if pre (is_opaque file)
          (explain "couldn't set overlayfs whiteout attr"
            (te.fs_eval.lsetxattr d "trusted.overlay.opaque" (codes "y")))
          (replace_by_device te E target)
          (Respects-explain pre "couldn't set overlayfs whiteout attr" _
            (λ s h. C.lsetxattr-R d "trusted.overlay.opaque" (codes "y") s (inl h)))
          replace_by_device-R
