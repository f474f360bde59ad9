-- ===== src/CasDir/Quiet.antt =====
-- oci/cas/dir/dir.go: ensureTempDir, PutIndex and Clean, and the files of the image.
use umoci.Base.{refl, ◌∙◌, inl, inr, String, Option, none, some, List, [], ◌∷◌, Text, All, length}
use umoci.Base.Errors.{GoError, wrapped, is_same}
use umoci.Base.Int.{pos}
use umoci.Base.Result.{Result, ok, Returns, Returns-ok, Result-cases}
use umoci.Base.Program.{
  Program, done, fail, ◌>>=◌, ◌>>◌, returning, explain, Respects, IsPreorder, Respects-bind,
  Respects-explain, Respects-handle, Respects-if, Respects-finally, Respects-value, Yields,
  Yields-bind, Yields-explain, Yields-then,
}
use umoci.Image.{Index}
use umoci.Unpriv.Os.{skip_dir}
use umoci.CasDir.Disk.{Location, File, Disk, Digests, Json}
use umoci.CasDir.Engine.{
  DirEngine, index_file, is_not_exist, typed, on_disk, set_temp, make_temp_dir, temp_dir_of,
  ensure_temp_dir, write_and_move, put_index, blob_location, put_blob, remove_blob, delete_blob,
  remove_locked, clean_open, clean_path, clean_paths, clean,
}
use umoci.CasDir.Laws.{
  SameVisible, IsLawfulDisk, Same-IsPreorder, TempOf, Quiet, Quiet-IsPreorder, Moved,
  write_and_move-Moved,
}

module _ {S C : Type 0} (O : Disk S C) (G : Digests) (J : Json C) (root : Location)
    (look : S → Location → Option C) (Temp : Location → Type 0)
    (L : IsLawfulDisk O look Temp root) where
  abbrev Still : DirEngine × S → DirEngine × S → Type 0
  Still = Quiet O G J root look Temp L

  Q : IsPreorder Still
  Q = Quiet-IsPreorder O G J root look Temp L

  K : IsPreorder (SameVisible look Temp)
  K = Same-IsPreorder O G J root look Temp L

  on_disk-Quiet :
      {A : Type 0} (m : Program S A)
      → Respects (SameVisible look Temp) m
      → Respects Still (on_disk O G J root m)
  on_disk-Quiet m h x tidy = (tidy, h x.1)

  make_temp_dir-Quiet : Respects Still (make_temp_dir O G J root)
  unfolding make_temp_dir
  make_temp_dir-Quiet =
      Respects-value Q Temp
        (on_disk O G J root (explain "create tempdir" (O.temp_dir root ".umoci-"))) _
        (on_disk-Quiet (explain "create tempdir" (O.temp_dir root ".umoci-"))
          (Respects-explain K "create tempdir" (O.temp_dir root ".umoci-") L.temp_dir-Same))
        (λ x. Yields-explain Temp "create tempdir" (O.temp_dir root ".umoci-") L.temp_dir-Temp x.1)
        (λ d t.
          Respects-bind Q (on_disk O G J root (explain "open tempdir for lock" (O.open_file d)))
            (λ lock.
              on_disk O G J root (explain "lock tempdir" (O.flock lock))
              >> set_temp O G J root d lock
              >> done d)
            (on_disk-Quiet (explain "open tempdir for lock" (O.open_file d))
              (Respects-explain K "open tempdir for lock" (O.open_file d) (L.open_file-Same d)))
            (λ lock.
              Respects-bind Q (on_disk O G J root (explain "lock tempdir" (O.flock lock)))
                (λ u. set_temp O G J root d lock >> done d)
                (on_disk-Quiet (explain "lock tempdir" (O.flock lock))
                  (Respects-explain K "lock tempdir" (O.flock lock) (L.flock-Same lock)))
                (λ u.
                  Respects-bind Q (set_temp O G J root d lock) (λ u. done d)
                    (λ x tidy. (t, K.same x.1)) (λ u. Q.same))))

  make_temp_dir-Temp : Yields Temp (make_temp_dir O G J root)
  unfolding make_temp_dir
  make_temp_dir-Temp =
      Yields-bind Temp Temp
        (on_disk O G J root (explain "create tempdir" (O.temp_dir root ".umoci-"))) _
        (λ x. Yields-explain Temp "create tempdir" (O.temp_dir root ".umoci-") L.temp_dir-Temp x.1)
        (λ d t.
          Yields-then Temp (on_disk O G J root (explain "open tempdir for lock" (O.open_file d)))
            (λ lock.
              on_disk O G J root (explain "lock tempdir" (O.flock lock))
              >> set_temp O G J root d lock
              >> done d)
            (λ lock.
              Yields-then Temp (on_disk O G J root (explain "lock tempdir" (O.flock lock)))
                (λ u. set_temp O G J root d lock >> done d)
                (λ u. Yields-then Temp (set_temp O G J root d lock) (λ u. done d) (λ u x. t))))

  pub ensure_temp_dir-Quiet : Respects Still (ensure_temp_dir O G J root)
  unfolding ensure_temp_dir
  ensure_temp_dir-Quiet x = by_temp x.0.temp x
    where
      by_temp : (o : Option (Location × File)) → Respects Still (temp_dir_of O G J root o)
      by_temp none = make_temp_dir-Quiet
      by_temp (some (d, lock)) = Q.same

  pub ensure_temp_dir-Temp :
      (x : DirEngine × S)
      → TempOf O G J root look Temp L x.0.temp
      → Returns Temp (ensure_temp_dir O G J root x).0
  unfolding ensure_temp_dir
  ensure_temp_dir-Temp x tidy = by_temp x.0.temp tidy x
    where
      by_temp :
          (o : Option (Location × File))
          → TempOf O G J root look Temp L o
          → Yields Temp (temp_dir_of O G J root o)
      by_temp none t = make_temp_dir-Temp
      by_temp (some (d, lock)) t = λ x. t

  -- What PutIndex leaves behind it: the index, or an error and every file as it was.
  abbrev pub Put : Index → DirEngine × S → Result GoError (Unit {0}) × (DirEngine × S) → Type 0
  Put i x r =
      TempOf O G J root look Temp L r.1.0.temp
      × Moved O G J root look Temp L (index_file ∷ root) (J.encode_index (typed i)) x.1 (r.0, r.1.1)

  pub put_index-Put :
      (i : Index) (x : DirEngine × S)
      → TempOf O G J root look Temp L x.0.temp
      → Put i x (put_index O G J root i x)
  unfolding put_index
  put_index-Put i x tidy =
      let quiet = ensure_temp_dir-Quiet x tidy in
      elim (Result-cases (ensure_temp_dir O G J root x).0) [
        | inr (e, h) ↦ rw h (quiet.0, inr (wrapped "ensure tempdir" e, refl, quiet.1))
        | inl (d, h) ↦
            let t =
              Returns-ok Temp (ensure_temp_dir O G J root x).0 (ensure_temp_dir-Temp x tidy) h in
            let y = (ensure_temp_dir O G J root x).1 in
            rw h (quiet.0, after (put_index_moved d y.1 t) quiet.1)
      ]
    where
      content : C
      content = J.encode_index (typed i)

      put_index_moved :
          (d : Location) (s : S)
          → Temp d
          → Moved O G J root look Temp L
              (index_file ∷ root)
              content
              s
              (write_and_move O G J root d "index-" content (ok (index_file ∷ root)) s)
      put_index_moved d s t =
          write_and_move-Moved O G J root look Temp L d "index-" content (index_file ∷ root) s t
            L.index_visible

      after :
          {r : Result GoError (Unit {0}) × S} {s : S}
          → Moved O G J root look Temp L (index_file ∷ root) content s r
          → SameVisible look Temp x.1 s
          → Moved O G J root look Temp L (index_file ∷ root) content x.1 r
      after (inl (e, f, g)) k = inl (e, f, λ r v n. k r v ∙ g r v n)
      after (inr (e, f, g)) k = inr (e, f, K.chain k g)

  remove_locked-Same :
      (p : Location) → Temp p → Respects (SameVisible look Temp) (remove_locked O G J root p)
  remove_locked-Same p t =
      Respects-handle K (O.remove_all p) _ _ (L.remove_all-Same p t) (λ u. K.same)
        (λ e. Respects-if K (is_not_exist e) (done tt) (fail skip_dir) K.same K.same)

  clean_open-Same :
      (p : Location) (lock : File)
      → Temp p
      → Respects (SameVisible look Temp) (clean_open O G J root p lock)
  clean_open-Same p lock t =
      Respects-handle K (O.flock lock) _ _ (L.flock-Same lock)
        (λ u.
          Respects-finally K (remove_locked O G J root p) (O.funlock lock) (remove_locked-Same p t)
            (L.funlock-Same lock))
        (λ e. K.same)

  clean_path-Same :
      (p : Location) → Temp p → Respects (SameVisible look Temp) (clean_path O G J root p)
  unfolding clean_path
  clean_path-Same p t =
      Respects-handle K (O.open_file p) _ _ (L.open_file-Same p)
        (λ lock.
          Respects-finally K (clean_open O G J root p lock) (O.close lock)
            (clean_open-Same p lock t) (L.close-Same lock))
        (λ e. K.same)

  clean_paths-Same :
      (ps : List Location)
      → All Temp ps
      → Respects (SameVisible look Temp) (clean_paths O G J root ps)
  unfolding clean_paths
  clean_paths-Same [] t = K.same
  clean_paths-Same (p ∷ ps) (t, ts) =
      Respects-handle K (clean_path O G J root p) _ _ (clean_path-Same p t)
        (λ u. clean_paths-Same ps ts)
        (λ e.
          Respects-if K (is_same e "skip this directory") (clean_paths O G J root ps) (fail e)
            (clean_paths-Same ps ts) K.same)

  -- Clean keeps the engine and every file that is in no temporary directory.
  pub clean-Quiet : Respects Still (clean O G J root)
  unfolding clean
  clean-Quiet =
      on_disk-Quiet
        (explain "glob .umoci-*" (λ s. (O.glob root ".umoci-*" s, s)) >>= clean_paths O G J root)
        (Respects-value K (All Temp) (explain "glob .umoci-*" (λ s. (O.glob root ".umoci-*" s, s)))
          (clean_paths O G J root)
          (Respects-explain K "glob .umoci-*" (λ s. (O.glob root ".umoci-*" s, s)) K.same)
          (Yields-explain (All Temp) "glob .umoci-*" (λ s. (O.glob root ".umoci-*" s, s))
            L.glob-Temp)
          (λ ps t. clean_paths-Same ps t))

  -- The temporary directory stays one.
  abbrev pub Tidied : DirEngine × S → DirEngine × S → Type 0
  Tidied x y = TempOf O G J root look Temp L x.0.temp → TempOf O G J root look Temp L y.0.temp

  T : IsPreorder Tidied
  T = record { same = λ x t. t; chain = λ f g t. g (f t) }

  on_disk-Tidied : {A : Type 0} (m : Program S A) → Respects Tidied (on_disk O G J root m)
  on_disk-Tidied m x t = t

  pub put_blob-Tidied : (content : Text) → Respects Tidied (put_blob O G J root content)
  unfolding put_blob
  put_blob-Tidied content =
      Respects-bind T (explain "ensure tempdir" (ensure_temp_dir O G J root))
        (λ dir. on_disk O G J root (move dir) >> done (G.sha256 content, pos (length content)))
        (Respects-explain T "ensure tempdir" (ensure_temp_dir O G J root)
          (λ x t. (ensure_temp_dir-Quiet x t).0))
        (λ dir.
          Respects-bind T (on_disk O G J root (move dir))
            (λ u. done (G.sha256 content, pos (length content))) (on_disk-Tidied (move dir))
            (λ u. T.same))
    where
      move : Location → Program S (Unit {0})
      move dir =
          write_and_move O G J root dir "blob-" (J.of_text content)
            (blob_location O G J root (G.sha256 content))

  pub delete_blob-Tidied : (d : String) → Respects Tidied (delete_blob O G J root d)
  unfolding delete_blob
  delete_blob-Tidied d =
      Respects-bind T (explain "compute blob path" (returning (blob_location O G J root d)))
        (λ path. on_disk O G J root (remove_blob O G J root path))
        (Respects-explain T "compute blob path" (returning (blob_location O G J root d)) T.same)
        (λ path. on_disk-Tidied (remove_blob O G J root path))
