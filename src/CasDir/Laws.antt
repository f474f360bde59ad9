-- ===== src/CasDir/Laws.antt =====
-- What the directory store relies on, and what its operations do to the files of the image.
use umoci.Base.{◌≡◌, refl, sym, ◌∙◌, ◌⊎◌, inl, inr, true, String, Option, none, some, ◌∷◌, All}
use umoci.Base.Errors.{GoError, wrapped}
use umoci.Base.Result.{Result, ok, err, Returns, Returns-ok, Result-cases}
use umoci.Base.Program.{Respects, IsPreorder, Yields}
use umoci.CasDir.Disk.{Location, File, Disk, Digests, Json}
use umoci.CasDir.Engine.{DirEngine, index_file, blob_dir, is_not_exist, write_and_move}

-- The files outside of the temporary directories are the same.
abbrev pub SameVisible :
    {S C : Type 0} → (S → Location → Option C) → (Location → Type 0) → S → S → Type 0
SameVisible look Temp s t = (r : Location) → (Temp r → ⊥) → look s r ≡ look t r

-- The same, except for one of them.
abbrev pub SameBut :
    {S C : Type 0} → (S → Location → Option C) → (Location → Type 0) → Location → S → S → Type 0
SameBut look Temp q s t = (r : Location) → (Temp r → ⊥) → (q ≡ r → ⊥) → look s r ≡ look t r

-- The promises of the system: `look` is what the file at a path holds, and Temp is about the paths in
-- the directories that TempDir makes and Glob finds.
pub record IsLawfulDisk {S C : Type 0} (O : Disk S C) (look : S → Location → Option C)
    (Temp : Location → Type 0) (root : Location) : Type 0 where
  pub index_visible : Temp (index_file ∷ root) → ⊥
  pub blob_visible : (h : String) → Temp (h ∷ blob_dir root) → ⊥
  pub read_file-look :
      (p : Location) (s t : S) → look s p ≡ look t p → O.read_file p s ≡ O.read_file p t
  pub read_file-some : (p : Location) (s : S) {c : C} → look s p ≡ some c → O.read_file p s ≡ ok c
  pub temp_dir-Temp : Yields Temp (O.temp_dir root ".umoci-")
  pub temp_dir-Same : Respects (SameVisible look Temp) (O.temp_dir root ".umoci-")
  pub open_file-Same : (p : Location) → Respects (SameVisible look Temp) (O.open_file p)
  pub flock-Same : (f : File) → Respects (SameVisible look Temp) (O.flock f)
  pub funlock-Same : (f : File) → Respects (SameVisible look Temp) (O.funlock f)
  pub close-Same : (f : File) → Respects (SameVisible look Temp) (O.close f)
  pub temp_file-Temp :
      (d : Location) (prefix : String) → Temp d → Yields (λ f. Temp f.path) (O.temp_file d prefix)
  pub temp_file-Same :
      (d : Location) (prefix : String)
      → Temp d
      → Respects (SameVisible look Temp) (O.temp_file d prefix)
  pub write-Same : (f : File) (c : C) → Temp f.path → Respects (SameVisible look Temp) (O.write f c)
  -- A new file that was written and closed holds what was written.
  pub written :
      (d : Location) (prefix : String) (c : C) (s : S) (f : File)
      → Temp d
      → (O.temp_file d prefix s).0 ≡ ok f
      → (O.write f c (O.temp_file d prefix s).1).0 ≡ ok tt
      → (O.close f (O.write f c (O.temp_file d prefix s).1).1).0 ≡ ok tt
      → look (O.close f (O.write f c (O.temp_file d prefix s).1).1).1 f.path ≡ some c
  pub rename_self :
      (p q : Location) (s : S) → (O.rename p q s).0 ≡ ok tt → look (O.rename p q s).1 q ≡ look s p
  pub rename_ne : (p q : Location) (s : S) → Temp p → SameBut look Temp q s (O.rename p q s).1
  pub rename_failed :
      (p q : Location) (s : S) {e : GoError}
      → (O.rename p q s).0 ≡ err e
      → SameVisible look Temp s (O.rename p q s).1
  pub remove_self :
      (p : Location) (s : S) → (O.remove p s).0 ≡ ok tt → look (O.remove p s).1 p ≡ none
  pub remove_gone :
      (p : Location) (s : S) {e : GoError}
      → (O.remove p s).0 ≡ err e
      → is_not_exist e ≡ true
      → look (O.remove p s).1 p ≡ none
  pub remove_ne : (p r : Location) (s : S) → (p ≡ r → ⊥) → look (O.remove p s).1 r ≡ look s r
  pub remove_all-Same : (p : Location) → Temp p → Respects (SameVisible look Temp) (O.remove_all p)
  pub glob-Temp : (s : S) → Returns (All Temp) (O.glob root ".umoci-*" s)

module _ {S C : Type 0} (O : Disk S C) (G : Digests) (J : Json C) (root : Location)
    (look : S → Location → Option C) (Temp : Location → Type 0)
    (L : IsLawfulDisk O look Temp root) where
  abbrev pub Same : S → S → Type 0
  Same = SameVisible look Temp

  pub Same-IsPreorder : IsPreorder Same
  Same-IsPreorder = record { same = λ s r v. refl; chain = λ f g r v. f r v ∙ g r v }

  pub SameBut-IsPreorder : (q : Location) → IsPreorder (SameBut look Temp q)
  SameBut-IsPreorder q = record { same = λ s r v n. refl; chain = λ f g r v n. f r v n ∙ g r v n }

  -- The temporary directory of the engine is one.
  abbrev pub TempOf : Option (Location × File) → Type 0
  TempOf none = Unit
  TempOf (some (d, lock)) = Temp d

  -- The engine stays tidy, and the visible files are the same.
  abbrev pub Quiet : DirEngine × S → DirEngine × S → Type 0
  Quiet x y = TempOf x.0.temp → TempOf y.0.temp × Same x.1 y.1

  pub Quiet-IsPreorder : IsPreorder Quiet
  Quiet-IsPreorder = record {
    same = λ x h. (h, Same-IsPreorder.same x.1);
    chain = λ f g h. ((g (f h).0).0, Same-IsPreorder.chain (f h).1 (g (f h).0).1);
  }

  -- A file that is moved to its path, or an error that leaves all the files as they were.
  abbrev pub Moved : Location → C → S → Result GoError (Unit {0}) × S → Type 0
  Moved q c s r =
      ((r.0 ≡ ok tt) × (look r.1 q ≡ some c) × SameBut look Temp q s r.1)
      ⊎ ((e : GoError) × (r.0 ≡ err e) × Same s r.1)

  pub write_and_move-Moved :
      (d : Location) (prefix : String) (c : C) (q : Location) (s : S)
      → Temp d
      → (Temp q → ⊥)
      → Moved q c s (write_and_move O G J root d prefix c (ok q) s)
  unfolding write_and_move
  write_and_move-Moved d prefix c q s t visible = elim (Result-cases (O.temp_file d prefix s).0) [
    | inr (e, h) ↦
        rw h (inr (wrapped "create temporary file" e, refl, L.temp_file-Same d prefix t s))
    | inl (f, h) ↦
        let s1 = (O.temp_file d prefix s).1 in
        let to1 = L.temp_file-Same d prefix t s in
        let tf =
          Returns-ok (λ (g : File). Temp g.path) (O.temp_file d prefix s).0
            (L.temp_file-Temp d prefix t s) h in
        let s2 = (O.write f c s1).1 in
        let to2 = Same-IsPreorder.chain to1 (L.write-Same f c tf s1) in
        let s3 = (O.close f s2).1 in
        let to3 = Same-IsPreorder.chain to2 (L.close-Same f s2) in
        let s4 = (O.rename f.path q s3).1 in
        elim (Result-cases (O.write f c s1).0) [
          | inr (e, h2) ↦
              rw (h, h2)
                (inr (
                  wrapped "write temporary file" e,
                  refl,
                  Same-IsPreorder.chain to2 (L.close-Same f s2),
                ))
          | inl (u, h2) ↦ elim (Result-cases (O.close f (O.write f c s1).1).0) [
            | inr (e, h3) ↦
                rw (h, h2, h3)
                  (inr (
                    wrapped "close temporary file" e,
                    refl,
                    Same-IsPreorder.chain to3 (L.close-Same f s3),
                  ))
            | inl (u, h3) ↦
                elim (Result-cases (O.rename f.path q (O.close f (O.write f c s1).1).1).0) [
                  | inr (e, h4) ↦
                      rw (h, h2, h3, h4)
                        (inr (
                          wrapped "rename temporary file" e,
                          refl,
                          Same-IsPreorder.chain to3 (
                              Same-IsPreorder.chain (L.rename_failed f.path q s3 h4)
                                (L.close-Same f s4)),
                        ))
                  | inl (u, h4) ↦
                      rw (h, h2, h3, h4)
                        (inl (
                          refl,
                          sym (L.close-Same f s4 q visible)
                              ∙ L.rename_self f.path q s3 h4
                              ∙ L.written d prefix c s f t h h2 h3,
                          (λ r v n.
                              to3 r v ∙ L.rename_ne f.path q s3 tf r v n ∙ L.close-Same f s4 r v),
                        ))
                ]
          ]
        ]
  ]
