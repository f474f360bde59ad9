-- ===== src/CasDir/Flat.antt =====
-- oci/cas/dir/dir.go: the directory of blobs has files and no directories, and stays so.
use umoci.Base.{◌≡◌, ◌⊎◌, inl, inr, String, Option, none, some, List, [], ◌∷◌, Text, All, length}
use umoci.Base.Errors.{is_same}
use umoci.Base.Int.{pos}
use umoci.Base.Result.{Result, ok, Returns, Returns-ok, Result-cases}
use umoci.Base.Program.{
  Program, done, fail, ◌>>=◌, ◌>>◌, returning, explain, Respects, IsPreorder, Respects-bind,
  Respects-explain, Respects-handle, Respects-if, Respects-finally,
}
use umoci.Base.Errors.{GoError}
use umoci.Image.{Index}
use umoci.Unpriv.Os.{skip_dir}
use umoci.CasDir.Disk.{Location, File, Disk, Digests, Json}
use umoci.CasDir.Engine.{
  DirEngine, index_file, blob_dir, is_not_exist, typed, on_disk, set_temp, make_temp_dir,
  temp_dir_of, ensure_temp_dir, write_and_move, put_index, blob_location, put_blob, remove_blob,
  delete_blob, remove_locked, clean_open, clean_path, clean_paths, clean,
}
use umoci.CasDir.Laws.{IsLawfulDisk, TempOf}
use umoci.CasDir.Quiet.{ensure_temp_dir-Temp}
use umoci.CasDir.Blobs.{is_some, visited}

abbrev pub StaysFlat : {S : Type 0} → (S → Type 0) → S → S → Type 0
StaysFlat Flat s t = Flat s → Flat t

-- Flat is about the states in which the directory of blobs has no directories: Walk visits it and its
-- files then. No call makes a directory in it, but for a Rename of something that is no file.
pub record IsFlat {S C : Type 0} (O : Disk S C) (look : S → Location → Option C) (root : Location)
    (Flat : S → Type 0) : Type 0 where
  pub walk-visited :
      (s : S) (h : String)
      → Flat s
      → Returns
          (λ ps. visited ps (h ∷ blob_dir root) ≡ is_some (look s (h ∷ blob_dir root)))
          (O.walk (blob_dir root) s)
  pub walk-files :
      (s : S)
      → Flat s
      → Returns
          (All (λ p. (p ≡ blob_dir root) ⊎ ((h : String) × (p ≡ h ∷ blob_dir root))))
          (O.walk (blob_dir root) s)
  pub temp_dir-Flat : Respects (StaysFlat Flat) (O.temp_dir root ".umoci-")
  pub temp_file-Flat :
      (d : Location) (prefix : String) → Respects (StaysFlat Flat) (O.temp_file d prefix)
  pub open_file-Flat : (p : Location) → Respects (StaysFlat Flat) (O.open_file p)
  pub flock-Flat : (f : File) → Respects (StaysFlat Flat) (O.flock f)
  pub funlock-Flat : (f : File) → Respects (StaysFlat Flat) (O.funlock f)
  pub write-Flat : (f : File) (c : C) → Respects (StaysFlat Flat) (O.write f c)
  pub close-Flat : (f : File) → Respects (StaysFlat Flat) (O.close f)
  pub rename-Flat :
      (p q : Location) (c : C) (s : S) → look s p ≡ some c → StaysFlat Flat s (O.rename p q s).1
  pub remove-Flat : (p : Location) → Respects (StaysFlat Flat) (O.remove p)
  pub remove_all-Flat : (p : Location) → Respects (StaysFlat Flat) (O.remove_all p)

module _ {S C : Type 0} (O : Disk S C) (G : Digests) (J : Json C) (root : Location)
    (look : S → Location → Option C) (Temp : Location → Type 0) (L : IsLawfulDisk O look Temp root)
    (Flat : S → Type 0) (F : IsFlat O look root Flat) where
  abbrev Stays : S → S → Type 0
  Stays = StaysFlat Flat

  K : IsPreorder Stays
  K = record { same = λ s h. h; chain = λ f g h. g (f h) }

  -- The same of an engine and its disk.
  abbrev pub FlatAfter : DirEngine × S → DirEngine × S → Type 0
  FlatAfter x y = StaysFlat Flat x.1 y.1

  Q : IsPreorder FlatAfter
  Q = record { same = λ x h. h; chain = λ f g h. g (f h) }

  on_disk-Flat :
      {A : Type 0} (m : Program S A) → Respects Stays m → Respects FlatAfter (on_disk O G J root m)
  on_disk-Flat m h x = h x.1

  explained :
      {A : Type 0} (message : String) (m : Program S A)
      → Respects Stays m
      → Respects FlatAfter (on_disk O G J root (explain message m))
  explained message m h = on_disk-Flat (explain message m) (Respects-explain K message m h)

  ensure_temp_dir-Flat : Respects FlatAfter (ensure_temp_dir O G J root)
  unfolding ensure_temp_dir make_temp_dir
  ensure_temp_dir-Flat x = by_temp x.0.temp x
    where
      made : Respects FlatAfter (make_temp_dir O G J root)
      made =
          Respects-bind Q
            (on_disk O G J root (explain "create tempdir" (O.temp_dir root ".umoci-"))) _
            (explained "create tempdir" (O.temp_dir root ".umoci-") F.temp_dir-Flat)
            (λ d.
              Respects-bind Q (on_disk O G J root (explain "open tempdir for lock" (O.open_file d)))
                (λ lock.
                  on_disk O G J root (explain "lock tempdir" (O.flock lock))
                  >> set_temp O G J root d lock
                  >> done d)
                (explained "open tempdir for lock" (O.open_file d) (F.open_file-Flat d))
                (λ lock.
                  Respects-bind Q (on_disk O G J root (explain "lock tempdir" (O.flock lock)))
                    (λ u. set_temp O G J root d lock >> done d)
                    (explained "lock tempdir" (O.flock lock) (F.flock-Flat lock))
                    (λ u.
                      Respects-bind Q (set_temp O G J root d lock) (λ u. done d) (λ y h. h)
                        (λ u. Q.same))))

      by_temp : (o : Option (Location × File)) → Respects FlatAfter (temp_dir_of O G J root o)
      by_temp none = made
      by_temp (some (d, lock)) = Q.same

  write_and_move-Flat :
      (d : Location) (prefix : String) (c : C) (target : Result GoError Location) (s : S)
      → Temp d
      → Stays s (write_and_move O G J root d prefix c target s).1
  unfolding write_and_move
  write_and_move-Flat d prefix c target s t flat = elim (Result-cases (O.temp_file d prefix s).0) [
    | inr (e, h) ↦ rw h (F.temp_file-Flat d prefix s flat)
    | inl (f, h) ↦
        let s1 = (O.temp_file d prefix s).1 in
        let s2 = (O.write f c s1).1 in
        let s3 = (O.close f s2).1 in
        let flat2 = F.write-Flat f c s1 (F.temp_file-Flat d prefix s flat) in
        let flat3 = F.close-Flat f s2 flat2 in
        elim (Result-cases (O.write f c s1).0) [
          | inr (e, h2) ↦ rw (h, h2) flat3
          | inl (u, h2) ↦ elim (Result-cases (O.close f s2).0) [
            | inr (e, h3) ↦ rw (h, h2, h3) (F.close-Flat f s3 flat3)
            | inl (v, h3) ↦ elim (Result-cases target) [
              | inr (e, h4) ↦ rw (h, h2, h3, h4) (F.close-Flat f s3 flat3)
              | inl (q, h4) ↦
                  let moved =
                    F.close-Flat f (O.rename f.path q s3).1
                      (F.rename-Flat f.path q c s3 (L.written d prefix c s f t h h2 h3) flat3) in
                  elim (Result-cases (O.rename f.path q s3).0) [
                    | inl (w, h5) ↦ rw (h, h2, h3, h4, h5) moved
                    | inr (e, h5) ↦ rw (h, h2, h3, h4, h5) moved
                  ]
            ]
          ]
        ]
  ]

  -- What follows ensureTempDir keeps the directory of blobs flat in a temporary directory.
  in_temp_dir :
      {A : Type 0} (f : Location → Program (DirEngine × S) A)
      → ((d : Location) → Temp d → Respects FlatAfter (f d))
      → (x : DirEngine × S) → TempOf O G J root look Temp L x.0.temp
      → FlatAfter x ((explain "ensure tempdir" (ensure_temp_dir O G J root) >>= f) x).1
  in_temp_dir f h x tidy = elim (Result-cases (ensure_temp_dir O G J root x).0) [
    | inr (e, q) ↦ rw q (ensure_temp_dir-Flat x)
    | inl (d, q) ↦
        let t =
          Returns-ok Temp (ensure_temp_dir O G J root x).0
            (ensure_temp_dir-Temp O G J root look Temp L x tidy) q in
        rw q (λ flat. h d t (ensure_temp_dir O G J root x).1 (ensure_temp_dir-Flat x flat))
  ]

  pub put_index-Flat :
      (i : Index) (x : DirEngine × S)
      → TempOf O G J root look Temp L x.0.temp
      → FlatAfter x (put_index O G J root i x).1
  unfolding put_index
  put_index-Flat i = in_temp_dir _ (λ d t y.
      write_and_move-Flat d "index-" (J.encode_index (typed i)) (ok (index_file ∷ root)) y.1 t)

  pub put_blob-Flat :
      (content : Text) (x : DirEngine × S)
      → TempOf O G J root look Temp L x.0.temp
      → FlatAfter x (put_blob O G J root content x).1
  unfolding put_blob
  put_blob-Flat content = in_temp_dir _ (λ d t.
      Respects-bind Q _ (λ u. done (G.sha256 content, pos (length content)))
        (λ y.
          write_and_move-Flat d "blob-" (J.of_text content)
            (blob_location O G J root (G.sha256 content)) y.1 t)
        (λ u. Q.same))

  pub delete_blob-Flat : (d : String) → Respects FlatAfter (delete_blob O G J root d)
  unfolding delete_blob remove_blob
  delete_blob-Flat d =
      Respects-bind Q (explain "compute blob path" (returning (blob_location O G J root d)))
        (λ path. on_disk O G J root (remove_blob O G J root path))
        (Respects-explain Q "compute blob path" (returning (blob_location O G J root d)) Q.same)
        (λ path. on_disk-Flat (remove_blob O G J root path) (
          Respects-handle K (O.remove path) _ _ (F.remove-Flat path) (λ u. K.same)
            (λ e. Respects-if K (is_not_exist e) _ _ K.same K.same)))

  clean_path-Flat : (p : Location) → Respects Stays (clean_path O G J root p)
  unfolding clean_path
  clean_path-Flat p =
      Respects-handle K (O.open_file p) _ _ (F.open_file-Flat p)
        (λ lock.
          Respects-finally K (clean_open O G J root p lock) (O.close lock)
            (Respects-handle K (O.flock lock) _ _ (F.flock-Flat lock)
              (λ u.
                Respects-finally K (remove_locked O G J root p) (O.funlock lock) locked
                  (F.funlock-Flat lock))
              (λ e. K.same))
            (F.close-Flat lock))
        (λ e. K.same)
    where
      locked : Respects Stays (remove_locked O G J root p)
      locked =
          Respects-handle K (O.remove_all p) _ _ (F.remove_all-Flat p) (λ u. K.same)
            (λ e. Respects-if K (is_not_exist e) (done tt) (fail skip_dir) K.same K.same)

  clean_paths-Flat : (ps : List Location) → Respects Stays (clean_paths O G J root ps)
  unfolding clean_paths
  clean_paths-Flat [] = K.same
  clean_paths-Flat (p ∷ ps) =
      Respects-handle K (clean_path O G J root p) _ _ (clean_path-Flat p) (λ u. clean_paths-Flat ps)
        (λ e.
          Respects-if K (is_same e "skip this directory") (clean_paths O G J root ps) (fail e)
            (clean_paths-Flat ps) K.same)

  pub clean-Flat : Respects FlatAfter (clean O G J root)
  unfolding clean
  clean-Flat =
      on_disk-Flat
        (explain "glob .umoci-*" (λ s. (O.glob root ".umoci-*" s, s)) >>= clean_paths O G J root)
        (Respects-bind K (explain "glob .umoci-*" (λ s. (O.glob root ".umoci-*" s, s)))
          (clean_paths O G J root)
          (Respects-explain K "glob .umoci-*" (λ s. (O.glob root ".umoci-*" s, s)) K.same)
          clean_paths-Flat)
