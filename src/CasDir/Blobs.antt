-- ===== src/CasDir/Blobs.antt =====
-- oci/cas/dir/dir.go: which blobs are in the directory store, and how DeleteBlob and PutIndex change that.
use umoci.Base.{
  ℕ, suc, ◌≡◌, refl, sym, ap, ◌∙◌, ◌⊎◌, inl, inr, Bool, true, false, ◌&&◌, ◌||◌, String, str_eq,
  eq_iff, Option, none, some, List, [], ◌∷◌, ◌++◌, length, arith, Bool-cases,
}
use umoci.Base.Errors.{GoError, sentinel, wrapped}
use umoci.Base.Result.{Result, ok, err, Result-cases, ◌>>=◌ as ◌>>=ʳ◌}
use umoci.Image.{Index}
use umoci.CasDir.Disk.{Location, Disk, Digests, Json}
use umoci.CasDir.Engine.{
  DirEngine, path_of_valid, index_file, blob_algorithm, blob_dir, is_not_exist, typed, blob_path,
  blob_location, remove_blob, delete_blob, same_location, put_index,
}
use umoci.CasDir.Laws.{IsLawfulDisk, TempOf, Moved}
use umoci.CasDir.Quiet.{put_index-Put}

abbrev pub is_some : {A : Type 0} → Option A → Bool
is_some none = false
is_some (some a) = true

-- Whether a path is among those that were walked.
unfoldable pub visited : List Location → Location → Bool
unfolding same_location
visited [] q = false
visited (p ∷ ps) q = same_location p q || visited ps q

-- Package go-digest: an algorithm and its digits, and back.
pub record IsLawfulDigests (G : Digests) : Type 0 where
  pub algorithm-new_from_hex :
      (h : String) → G.algorithm (G.new_from_hex blob_algorithm h) ≡ blob_algorithm
  pub hex-new_from_hex : (h : String) → G.hex (G.new_from_hex blob_algorithm h) ≡ h
  pub new_from_hex-hex :
      (d : String) → G.algorithm d ≡ blob_algorithm → G.new_from_hex blob_algorithm (G.hex d) ≡ d

module _ {S C : Type 0} (O : Disk S C) (G : Digests) (J : Json C) (root : Location)
    (look : S → Location → Option C) (Temp : Location → Type 0) (L : IsLawfulDisk O look Temp root)
    (D : IsLawfulDigests G) where
  abbrev pub file_of : String → Location
  file_of d = G.hex d ∷ blob_dir root

  -- The blobs of the store are the files in its directory of blobs.
  abbrev pub has : S → String → Bool
  has s d = str_eq (G.algorithm d) blob_algorithm && is_some (look s (file_of d))

  pub has-look :
      (s t : S) (d : String) → look s (file_of d) ≡ look t (file_of d) → has s d ≡ has t d
  has-look s t d e = ap (λ o. str_eq (G.algorithm d) blob_algorithm && is_some o) e

  and_false : (b : Bool) → (b && false) ≡ false
  and_false true = refl
  and_false false = refl

  -- The path of a blob, or an error for a digest that the store cannot have.
  blob_location-cases :
      (d : String)
      → ((G.algorithm d ≡ blob_algorithm) × (blob_location O G J root d ≡ ok (file_of d)))
        ⊎ ((e : GoError) × (blob_location O G J root d ≡ err e))
  unfolding blob_path
  blob_location-cases d = by_result (G.validate d)
    where
      at : Result GoError (Unit {0}) → Result GoError Location
      at r = path_of_valid O G J root d r >>=ʳ λ path. ok (path ++ root)

      by_result :
          (r : Result GoError (Unit {0}))
          → ((G.algorithm d ≡ blob_algorithm) × (at r ≡ ok (file_of d)))
            ⊎ ((e : GoError) × (at r ≡ err e))
      by_result (err e) = inr (wrapped "invalid digest" e, refl)
      by_result (ok u) = elim (Bool-cases (str_eq (G.algorithm d) blob_algorithm)) [
        | inl f ↦ rw f (inl ((eq_iff (G.algorithm d) blob_algorithm).0 f, refl))
        | inr f ↦ rw f (inr (sentinel "unsupported algorithm", refl))
      ]

  pub failed : {e : GoError} → ◌≡◌ {A = Result GoError (Unit {0})} (err e) (ok tt) → ⊥
  failed h = cc

  remove_blob-none :
      (p : Location) (s : S)
      → (remove_blob O G J root p s).0 ≡ ok tt
      → look (remove_blob O G J root p s).1 p ≡ none
  unfolding remove_blob
  remove_blob-none p s h = elim (Result-cases (O.remove p s).0) [
    | inl (u, f) ↦ rw f (L.remove_self p s f)
    | inr (e, f) ↦ elim (Bool-cases (is_not_exist e)) [
      | inl g ↦ rw (f, g) (L.remove_gone p s f g)
      | inr g ↦ absurd (failed (rw (f, g) at h))
    ]
  ]

  remove_blob-ne :
      (p r : Location) (s : S) → (p ≡ r → ⊥) → look (remove_blob O G J root p s).1 r ≡ look s r
  unfolding remove_blob
  remove_blob-ne p r s n = elim (Result-cases (O.remove p s).0) [
    | inl (u, f) ↦ rw f (L.remove_ne p r s n)
    | inr (e, f) ↦ elim (Bool-cases (is_not_exist e)) [
      | inl g ↦ rw (f, g) (L.remove_ne p r s n)
      | inr g ↦ rw (f, g) (L.remove_ne p r s n)
    ]
  ]

  abbrev hex_of : Location → String
  hex_of [] = ""
  hex_of (h ∷ up) = h

  -- Digests of the supported algorithm with one file are one.
  file_of-injective :
      (d x : String)
      → G.algorithm d ≡ blob_algorithm
      → G.algorithm x ≡ blob_algorithm
      → file_of d ≡ file_of x
      → d ≡ x
  file_of-injective d x a b e =
      sym (D.new_from_hex-hex d a)
      ∙ ap (λ p. G.new_from_hex blob_algorithm (hex_of p)) e
      ∙ D.new_from_hex-hex x b

  pub same_str : (d : String) → str_eq d d ≡ true
  same_str d = (eq_iff d d).1 refl

  pub clash : (b : Bool) → b ≡ true → b ≡ false → ⊥
  clash b h g = cc

  pub has-delete_blob_self :
      (d : String) (x : DirEngine × S)
      → (delete_blob O G J root d x).0 ≡ ok tt
      → has (delete_blob O G J root d x).1.1 d ≡ false
  unfolding delete_blob
  has-delete_blob_self d x h = elim (blob_location-cases d) [
    | inr (e, q) ↦ absurd (failed (rw q at h))
    | inl (a, q) ↦ rw q (
        ap (λ o. str_eq (G.algorithm d) blob_algorithm && is_some o)
          (remove_blob-none (file_of d) x.1 (rw q at h))
        ∙ and_false (str_eq (G.algorithm d) blob_algorithm))
  ]

  pub has-delete_blob_ne :
      (d y : String) (x : DirEngine × S)
      → str_eq d y ≡ false
      → has (delete_blob O G J root d x).1.1 y ≡ has x.1 y
  unfolding delete_blob
  has-delete_blob_ne d y x ne = elim (blob_location-cases d) [
    | inr (e, q) ↦ rw q refl
    | inl (a, q) ↦ rw q (elim (Bool-cases (str_eq (G.algorithm y) blob_algorithm)) [
      | inr f ↦ rw f refl
      | inl f ↦ has-look (remove_blob O G J root (file_of d) x.1).1 x.1 y (
          remove_blob-ne (file_of d) (file_of y) x.1 (λ e.
            clash (str_eq d y)
              (rw (← file_of-injective d y a ((eq_iff (G.algorithm y) blob_algorithm).0 f) e)
                (same_str d))
              ne))
    ])
  ]

  pub index_apart : (d : String) → index_file ∷ root ≡ file_of d → ⊥
  index_apart d e = lengths (length root) (ap length e)
    where
      lengths : (n : ℕ) → suc n ≡ suc (suc (suc n)) → ⊥
      lengths n h = omega (arith, h)

  pub has-put_index :
      (i : Index) (x : DirEngine × S)
      → TempOf O G J root look Temp L x.0.temp
      → (d : String) → has (put_index O G J root i x).1.1 d ≡ has x.1 d
  has-put_index i x t d = by_result (put_index-Put O G J root look Temp L i x t).1
    where
      by_result :
          Moved O G J root look Temp L
            (index_file ∷ root)
            (J.encode_index (typed i))
            x.1
            ((put_index O G J root i x).0, (put_index O G J root i x).1.1)
          → has (put_index O G J root i x).1.1 d ≡ has x.1 d
      by_result (inl (e, f, g)) =
          has-look (put_index O G J root i x).1.1 x.1 d
            (sym (g (file_of d) (L.blob_visible (G.hex d)) (index_apart d)))
      by_result (inr (e, f, g)) =
          has-look (put_index O G J root i x).1.1 x.1 d
            (sym (g (file_of d) (L.blob_visible (G.hex d))))
