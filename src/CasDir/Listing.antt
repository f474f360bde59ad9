-- ===== src/CasDir/Listing.antt =====
-- oci/cas/dir/dir.go: ListBlobs and the blobs in the store.
use umoci.Base.{
  ◌≡◌, refl, sym, ap, ◌∙◌, ◌⊎◌, inl, inr, Bool, true, false, ◌&&◌, ◌||◌, String, str_eq, eq_iff,
  Option, List, [], ◌∷◌, All, Bool-cases,
}
use umoci.Base.Dict.{contains}
use umoci.Base.Errors.{GoError}
use umoci.Base.Result.{Result, ok, err, Returns-ok, Result-cases}
use umoci.CasDir.Disk.{Location, Disk, Digests, Json}
use umoci.CasDir.Engine.{DirEngine, blob_algorithm, blob_dir, same_location, digests_of, list_blobs}
use umoci.CasDir.Blobs.{is_some, visited, IsLawfulDigests}
use umoci.CasDir.Flat.{IsFlat}

and_false : (b : Bool) → (b && false) ≡ false
and_false true = refl
and_false false = refl

and_true : (b : Bool) → (b && true) ≡ b
and_true true = refl
and_true false = refl

same_location_refl : (p : Location) → same_location p p ≡ true
unfolding same_location
same_location_refl [] = refl
same_location_refl (c ∷ p) = rw ((eq_iff c c).1 refl) (same_location_refl p)

same_location_above : (p : Location) (h : String) → same_location p (h ∷ p) ≡ false
unfolding same_location
same_location_above [] h = refl
same_location_above (c ∷ p) h = rw (same_location_above p c) (and_false (str_eq c h))

same_location_below : (p : Location) (h : String) → same_location (h ∷ p) p ≡ false
unfolding same_location
same_location_below [] h = refl
same_location_below (c ∷ p) h = rw (same_location_below p c) (and_false (str_eq h c))

clash : (b : Bool) → b ≡ true → b ≡ false → ⊥
clash b h g = cc

module _ {S C : Type 0} (O : Disk S C) (G : Digests) (J : Json C) (root : Location)
    (look : S → Location → Option C) (D : IsLawfulDigests G) (Flat : S → Type 0)
    (F : IsFlat O look root Flat) where
  -- A digest of the supported algorithm is told by its digits.
  new_from_hex_eq :
      (h d : String)
      → str_eq (G.new_from_hex blob_algorithm h) d
        ≡ (str_eq (G.algorithm d) blob_algorithm && str_eq h (G.hex d))
  new_from_hex_eq h d = elim (Bool-cases (str_eq (G.new_from_hex blob_algorithm h) d)) [
    | inl e ↦
        let same = (eq_iff (G.new_from_hex blob_algorithm h) d).0 e in
        e
        ∙ sym (
            rw
              (
                (eq_iff (G.algorithm d) blob_algorithm).1
                    (ap G.algorithm (sym same) ∙ D.algorithm-new_from_hex h),
                (eq_iff h (G.hex d)).1 (sym (D.hex-new_from_hex h) ∙ ap G.hex same),
              )
              refl)
    | inr e ↦ elim (Bool-cases (str_eq (G.algorithm d) blob_algorithm)) [
      | inr f ↦ rw (e, f) refl
      | inl f ↦ elim (Bool-cases (str_eq h (G.hex d))) [
        | inr g ↦ rw (e, f, g) refl
        | inl g ↦ absurd (
            clash (str_eq (G.new_from_hex blob_algorithm h) d)
              ((eq_iff (G.new_from_hex blob_algorithm h) d).1 (
                ap (G.new_from_hex blob_algorithm) ((eq_iff h (G.hex d)).0 g)
                ∙ D.new_from_hex-hex d ((eq_iff (G.algorithm d) blob_algorithm).0 f)))
              e)
      ]
    ]
  ]

  distribute : (a b c : Bool) → ((a && b) || (a && c)) ≡ (a && (b || c))
  distribute true b c = refl
  distribute false b c = refl

  contains-digests_of :
      (ps : List Location) (d : String)
      → All (λ p. (p ≡ blob_dir root) ⊎ ((h : String) × (p ≡ h ∷ blob_dir root))) ps
      → contains (digests_of O G J root ps) d
        ≡ (str_eq (G.algorithm d) blob_algorithm && visited ps (G.hex d ∷ blob_dir root))
  unfolding contains digests_of visited same_location
  contains-digests_of [] d t = sym (and_false (str_eq (G.algorithm d) blob_algorithm))
  contains-digests_of (p ∷ ps) d (inl e, t) =
      rw (e, same_location_refl (blob_dir root), same_location_above (blob_dir root) (G.hex d))
        (contains-digests_of ps d t)
  contains-digests_of (p ∷ ps) d (inr (h, e), t) =
      rw (e, same_location_below (blob_dir root) h)
        (rw (new_from_hex_eq h d, contains-digests_of ps d t)
          (distribute (str_eq (G.algorithm d) blob_algorithm) (str_eq h (G.hex d))
              (visited ps (G.hex d ∷ blob_dir root))
            ∙ rw (same_head h d) refl))
    where
      same_head :
          (h d : String)
          → same_location (h ∷ blob_dir root) (G.hex d ∷ blob_dir root) ≡ str_eq h (G.hex d)
      same_head h d = rw (same_location_refl root) (and_true (str_eq h (G.hex d)))

  pub contains-list_blobs :
      (x : DirEngine × S) {bs : List String} (d : String)
      → Flat x.1
      → list_blobs O G J root x ≡ ok bs
      → contains bs d
        ≡ (str_eq (G.algorithm d) blob_algorithm && is_some (look x.1 (G.hex d ∷ blob_dir root)))
  unfolding list_blobs
  contains-list_blobs (e, s) {bs} d flat h = elim (Result-cases (O.walk (blob_dir root) s)) [
    | inr (e', q) ↦ absurd (stopped (rw q at h))
    | inl (ps, q) ↦
        ap (λ cs. contains cs d) (sym (listed (rw q at h)))
        ∙ contains-digests_of ps d (
            Returns-ok (All (λ p. (p ≡ blob_dir root) ⊎ ((h : String) × (p ≡ h ∷ blob_dir root))))
              (O.walk (blob_dir root) s) (F.walk-files s flat) q)
        ∙ ap (λ b. str_eq (G.algorithm d) blob_algorithm && b)
            (Returns-ok
              (λ ps.
                visited ps (G.hex d ∷ blob_dir root) ≡ is_some (look s (G.hex d ∷ blob_dir root)))
              (O.walk (blob_dir root) s) (F.walk-visited s (G.hex d) flat) q)
  ]
    where
      stopped : {e : GoError} → ◌≡◌ {A = Result GoError (List String)} (err e) (ok bs) → ⊥
      stopped k = cc

      listed : {cs : List String} → ◌≡◌ {A = Result GoError (List String)} (ok cs) (ok bs) → cs ≡ bs
      listed k = cc
