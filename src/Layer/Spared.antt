-- ===== src/Layer/Spared.antt =====
-- oci/layer/tar_extract.go: whiteouts and the upper paths.
use umoci.Base.{
  ◌≡◌, refl, sym, ap, ◌∙◌, ◌⊎◌, inl, inr, Bool, true, false, ◌||◌, ◌&&◌, [], ◌∷◌, ◌++◌, Text,
  text_eq, Bool-cases, codes, if◌then◌else◌,
}
use umoci.Base.Errors.{wrapped}
use umoci.Base.Program.{
  Program, done, fail, ◌>>◌, explain, Respects, IsPreorder, Respects-bind, Respects-explain,
  Respects-handle, Respects-if,
}
use umoci.FilePath.{enter, dot, dot_dot}
use umoci.Unpriv.Os.{is_gone, skip_dir, Visit, seen, unseen}
use umoci.Layer.Paths.{Components, same_path, is_member, join_file, rel_path}
use umoci.Layer.PathLaws.{
  or_true, same_path_refl, rel_path-append, append-inside, above_root, IsClosed, suffix-IsClosed,
}
use umoci.Layer.Inside.{Inside}
use umoci.Layer.Extractor.{TarExtractor, wh_prefix}
use umoci.Layer.Whiteout.{is_opaque, trim_prefix, whiteout_target, remove_lower, oci_whiteout}

-- The name is that of an entry of a directory: it is not empty, not "." and not "..".
abbrev pub IsName : Text → Type 0
IsName c = ((text_eq c [] || text_eq c dot) ≡ false) × (text_eq c dot_dot ≡ false)

-- What the calls promise for a relation of states, such as that every upper path is as it was: to
-- read respects it, RemoveAll does where no upper path is at or below its path, and Walk does where its
-- function does at and below the path that is walked.
pub record Spares {S : Type 0} (R : S → S → Type 0) (root : Components) (te : TarExtractor S)
    : Type 0 where
  pub preorder : IsPreorder R
  pub lstat-R : (p : Components) → Respects R (te.fs_eval.lstat p)
  pub remove_all-R :
      (p : Components)
      → ((u : Components) → is_member te.upper_paths u ≡ true → Inside p (u ++ root) → ⊥)
      → Respects R (te.fs_eval.remove_all p)
  pub walk-R :
      (p : Components) (fn : Components → Visit → Program S (Unit {0}))
      → ((q : Components) (v : Visit) → Inside p q → Respects R (fn q v))
      → Respects R (te.fs_eval.walk p fn)

clash : (b : Bool) → b ≡ true → b ≡ false → ⊥
clash b h g = cc

or_left : (a b : Bool) → (a || b) ≡ false → a ≡ false
or_left true b h = cc
or_left false b h = refl

not_cons : (c : Text) (cs : Components) → c ∷ cs ≡ [] → ⊥
not_cons c cs h = cc

-- The top of what an opaque whiteout removes is left alone, so nothing is removed at the root itself.
below_root :
    (root w v q : Components) (opaque b : Bool)
    → ((v ≡ []) → opaque ≡ true)
    → q ≡ w ++ (v ++ root)
    → (b || (opaque && same_path (v ++ root) q)) ≡ false
    → w ++ v ≡ []
    → ⊥
below_root root [] [] q opaque b top e f h =
    clash true refl (sym (or_true b) ∙ (rw (top refl, e, same_path_refl root) at f))
below_root root [] (c ∷ v) q opaque b top e f h = cc
below_root root (c ∷ w) v q opaque b top e f h = cc

module _ {S : Type 0} (R : S → S → Type 0) (root : Components) (te : TarExtractor S)
    (L : Spares R root te) (closed : IsClosed te.upper_paths) where
  P : IsPreorder R
  P = L.preorder

  -- A path above the root that is no upper path has none at or below it.
  none_below :
      (x u : Components)
      → ((x ≡ []) → ⊥)
      → is_member te.upper_paths x ≡ false
      → is_member te.upper_paths u ≡ true
      → Inside (x ++ root) (u ++ root)
      → ⊥
  none_below [] u above out in_set (cs, e) = above refl
  none_below (c ∷ x) u above out in_set (cs, e) = clash (is_member te.upper_paths (c ∷ x)) also out
    where
      at : u ≡ cs ++ c ∷ x
      at = above_root root u (cs ++ c ∷ x) (e ∙ sym (append-inside cs (c ∷ x) root))

      also : is_member te.upper_paths (c ∷ x) ≡ true
      also = suffix-IsClosed te.upper_paths closed cs c x (rw (← at) in_set)

  -- What each visit does, at or below the target.
  visit-R :
      (opaque : Bool) (v : Components)
      → ((v ≡ []) → opaque ≡ true)
      → (q : Components) (seen_as : Visit) → Inside (v ++ root) q
      → Respects R (remove_lower te root opaque (v ++ root) q seen_as)
  unfolding remove_lower
  visit-R opaque v top q (unseen e) i = P.same
  visit-R opaque v top q (seen info) (w, e) =
      elim (Bool-cases
        (is_member te.upper_paths (rel_path root q) || (opaque && same_path (v ++ root) q))) [
          | inl f ↦ rw f P.same
          | inr f ↦ rw f (removed f)
        ]
    where
      at : q ≡ (w ++ v) ++ root
      at = e ∙ sym (append-inside w v root)

      apart :
          (is_member te.upper_paths (rel_path root q) || (opaque && same_path (v ++ root) q))
            ≡ false
          → (u : Components) → is_member te.upper_paths u ≡ true
          → Inside q (u ++ root)
          → ⊥
      apart f u m i =
          none_below (w ++ v) u
            (below_root root w v q opaque (is_member te.upper_paths (rel_path root q)) top e f)
            (ap (is_member te.upper_paths)
                (sym (rel_path-append root (w ++ v)) ∙ ap (rel_path root) (sym at))
              ∙ or_left (is_member te.upper_paths (rel_path root q))
                  (opaque && same_path (v ++ root) q) f)
            m (i.0, i.1 ∙ ap (λ t. i.0 ++ t) at)

      removed :
          (is_member te.upper_paths (rel_path root q) || (opaque && same_path (v ++ root) q))
            ≡ false
          → Respects R (
              explain "whiteout subpath" (te.fs_eval.remove_all q)
              >> (if info.is_dir then fail skip_dir else done tt))
      removed f =
          Respects-bind P (explain "whiteout subpath" (te.fs_eval.remove_all q))
            (λ u. if info.is_dir then fail skip_dir else done tt)
            (Respects-explain P "whiteout subpath" (te.fs_eval.remove_all q)
              (L.remove_all-R q (apart f)))
            (λ u. Respects-if P info.is_dir (fail skip_dir) (done tt) P.same P.same)

  oci_whiteout-at :
      (dir : Components) (file : Text) (v : Components)
      → whiteout_target dir file ≡ v ++ root
      → ((v ≡ []) → is_opaque file ≡ true)
      → Respects R (oci_whiteout te root dir file)
  unfolding oci_whiteout
  oci_whiteout-at dir file v e top =
      Respects-handle P (te.fs_eval.lstat (whiteout_target dir file)) _ _
        (L.lstat-R (whiteout_target dir file))
        (λ fi. Respects-explain P "whiteout remove" _ (
          L.walk-R (whiteout_target dir file)
            (remove_lower te root (is_opaque file) (whiteout_target dir file))
            (rw e (λ q x i. visit-R (is_opaque file) v top q x i))))
        (λ e.
          Respects-if P (is_gone e) (done tt) (fail (wrapped "check whiteout target" e)) P.same
            P.same)

  -- Where RemoveAll respects a relation if no upper path is at or below its path, and Walk and Lstat
  -- respect it: an OCI whiteout in a directory inside the root, opaque or of a name, respects it too,
  -- whatever fails, when the ancestors of upper paths are upper paths.
  pub oci_whiteout-Spared :
      (dir : Components) (file : Text)
      → Inside root dir
      → (is_opaque file ≡ true) ⊎ IsName (trim_prefix file wh_prefix)
      → Respects R (oci_whiteout te root dir file)
  unfolding whiteout_target join_file enter
  oci_whiteout-Spared dir file (v, e) kind = elim (Bool-cases (is_opaque file)) [
    | inl f ↦ oci_whiteout-at dir file v (rw f e) (λ _. f)
    | inr f ↦ elim kind [
      | inl g ↦ absurd (clash (is_opaque file) g f)
      | inr (plain, down) ↦
          oci_whiteout-at dir file (trim_prefix file wh_prefix ∷ v)
            (rw (f, plain, down) (ap (λ t. trim_prefix file wh_prefix ∷ t) e))
            (λ h. absurd (not_cons (trim_prefix file wh_prefix) v h))
    ]
  ]

-- A whiteout of the name ".." stands for the parent of the directory it is in, so at the root it stands
-- for the parent of the root.
pub whiteout_target-escapes :
    (c : Text) (up : Components)
    → text_eq c dot_dot ≡ false
    → whiteout_target (c ∷ up) (codes ".wh...") ≡ up
unfolding whiteout_target join_file enter
whiteout_target-escapes c up plain = rw plain refl
