-- ===== src/CasDir/PutBlob.antt =====
-- oci/cas/dir/dir.go: PutBlob and GetBlob.
use umoci.Base.{
  ◌≡◌, refl, ap, ◌∙◌, ◌⊎◌, inl, inr, eq_iff, String, Option, some, ◌∷◌, ◌++◌, Text, length,
}
use umoci.Base.Errors.{GoError, wrapped}
use umoci.Base.Int.{ℤ, pos}
use umoci.Base.Result.{Result, ok, err, wrap, Returns-ok, Result-cases, ◌>>=◌ as ◌>>=ʳ◌}
use umoci.Base.Program.{done, after_call}
use umoci.CasDir.Disk.{Location, Disk, Digests, Json}
use umoci.CasDir.Engine.{
  DirEngine, blob_algorithm, blob_dir, path_of_valid, blob_path, blob_location, ensure_temp_dir,
  write_and_move, put_blob, get_blob,
}
use umoci.CasDir.Laws.{SameVisible, SameBut, IsLawfulDisk, TempOf, Moved, write_and_move-Moved}
use umoci.CasDir.Quiet.{ensure_temp_dir-Quiet, ensure_temp_dir-Temp}

-- The digest of a content is valid and of the supported algorithm, and a file gives back the bytes that
-- were written to it.
pub record IsLawfulContent {C : Type 0} (G : Digests) (J : Json C) : Type 0 where
  pub validate-sha256 : (c : Text) → G.validate (G.sha256 c) ≡ ok tt
  pub algorithm-sha256 : (c : Text) → G.algorithm (G.sha256 c) ≡ blob_algorithm
  pub to_text-of_text : (c : Text) → J.to_text (J.of_text c) ≡ c

module _ {S C : Type 0} (O : Disk S C) (G : Digests) (J : Json C) (root : Location)
    (look : S → Location → Option C) (Temp : Location → Type 0) (L : IsLawfulDisk O look Temp root)
    (H : IsLawfulContent G J) where
  -- The blob is in the store and every other file is as it was, or there is an error and all are.
  abbrev pub Stored : Text → DirEngine × S → Result GoError (String × ℤ) × (DirEngine × S) → Type 0
  Stored content x r =
      ((r.0 ≡ ok (G.sha256 content, pos (length content)))
        × (get_blob O G J root (G.sha256 content) r.1 ≡ ok content)
        × SameBut look Temp (G.hex (G.sha256 content) ∷ blob_dir root) x.1 r.1.1)
      ⊎ ((e : GoError) × (r.0 ≡ err e) × SameVisible look Temp x.1 r.1.1)

  located :
      (content : Text)
      → blob_location O G J root (G.sha256 content) ≡ ok (G.hex (G.sha256 content) ∷ blob_dir root)
  unfolding blob_path
  located content =
      ap (λ r. path_of_valid O G J root (G.sha256 content) r >>=ʳ λ path. ok (path ++ root))
        (H.validate-sha256 content)
      ∙ rw ((eq_iff (G.algorithm (G.sha256 content)) blob_algorithm).1 (H.algorithm-sha256 content))
          refl

  read_back :
      (content : Text) (x : DirEngine × S)
      → look x.1 (G.hex (G.sha256 content) ∷ blob_dir root) ≡ some (J.of_text content)
      → get_blob O G J root (G.sha256 content) x ≡ ok content
  unfolding get_blob
  read_back content (e, s) h =
      ap
        (λ r. wrap (wrapped "compute blob path") r >>=ʳ λ path.
          wrap (wrapped "open blob") (O.read_file path s) >>=ʳ λ c. ok (J.to_text c))
        (located content)
      ∙ ap (λ r. wrap (wrapped "open blob") r >>=ʳ λ c. ok (J.to_text c))
          (L.read_file-some (G.hex (G.sha256 content) ∷ blob_dir root) s h)
      ∙ ap ok (H.to_text-of_text content)

  moved :
      (content : Text) (d : Location) (s : S)
      → Temp d
      → Moved O G J root look Temp L
          (G.hex (G.sha256 content) ∷ blob_dir root)
          (J.of_text content)
          s
          (write_and_move O G J root d "blob-"
            (J.of_text content)
            (blob_location O G J root (G.sha256 content))
            s)
  moved content d s t = rw (located content) (
      write_and_move-Moved O G J root look Temp L d "blob-" (J.of_text content)
        (G.hex (G.sha256 content) ∷ blob_dir root) s t (L.blob_visible (G.hex (G.sha256 content))))

  -- PutBlob, whatever fails: with its digest and its size the blob is there for GetBlob, and the other
  -- files are the same, or it returns an error and no file of the image has changed.
  pub put_blob-Stored :
      (content : Text) (x : DirEngine × S)
      → TempOf O G J root look Temp L x.0.temp
      → Stored content x (put_blob O G J root content x)
  unfolding put_blob
  put_blob-Stored content x tidy =
      let quiet = ensure_temp_dir-Quiet O G J root look Temp L x tidy in
      elim (Result-cases (ensure_temp_dir O G J root x).0) [
        | inr (e, h) ↦ rw h (inr (wrapped "ensure tempdir" e, refl, quiet.1))
        | inl (d, h) ↦
            let t =
              Returns-ok Temp (ensure_temp_dir O G J root x).0
                (ensure_temp_dir-Temp O G J root look Temp L x tidy) h in
            let y = (ensure_temp_dir O G J root x).1 in
            rw h (
              after y
                (write_and_move O G J root d "blob-" (J.of_text content)
                  (blob_location O G J root (G.sha256 content)) y.1)
                quiet.1 (moved content d y.1 t))
      ]
    where
      after :
          (y : DirEngine × S) (r : Result GoError (Unit {0}) × S)
          → SameVisible look Temp x.1 y.1
          → Moved O G J root look Temp L
              (G.hex (G.sha256 content) ∷ blob_dir root)
              (J.of_text content)
              y.1
              r
          → Stored content x
              (after_call (λ _. done (G.sha256 content, pos (length content))) (r.0, (y.0, r.1)))
      after y (ok u, s) k (inl (e, f, g)) =
          inl (refl, read_back content (y.0, s) f, λ r v n. k r v ∙ g r v n)
      after y (ok u, s) k (inr (e, f, g)) = cc
      after y (err e, s) k (inl (f, g, n)) = cc
      after y (err e, s) k (inr (e', f, g)) = inr (e, refl, λ r v. k r v ∙ g r v)
