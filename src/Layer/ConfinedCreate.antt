-- ===== src/Layer/ConfinedCreate.antt =====
-- oci/layer/tar_extract.go: how the path of an entry is created, and the root of the extraction.
use Prim.Native.Nat.{bit_or}
use umoci.Base.{
  ℕ, zero, suc, ◌+◌, ◌%◌, ◌==◌, ◌≡◌, refl, inl, inr, Bool, false, Option, none, some, [], ◌∷◌, Text,
  All, if◌then◌else◌, text_eq,
}
use umoci.Base.Errors.{GoError, sentinel, wrapped}
use umoci.Base.Result.{Returns, Returns-ok, Result-cases}
use umoci.Base.Program.{
  Program, done, fail, ◌>>◌, explain, Respects, IsPreorder, Respects-bind, Respects-explain,
  Respects-handle, Respects-if,
}
use umoci.Layer.Paths.{Components, clean_path, join_file}
use umoci.Layer.Extractor.{
  TypeFlag, reg, link, symlink, char, block, dir, fifo, custom, TarHeader, TarExtractor, Env,
  is_interrupted, tarmode,
}
use umoci.Layer.Create.{
  Place, is_dir_flag, link_parts, copy, write_data, make_node, make_empty, make_device,
  hard_link_target, make_regular, make_dir, make_hard_link, create_entry,
}
use umoci.Layer.Inside.{Near, IsPlain, IsProper, clean_path-IsProper, join_file-Near}
use umoci.Layer.Guarded.{
  Calm, At, Where, KeepsDir, near_At, Calm-IsPreorder, Real-IsPreorder, At-IsPreorder,
  KeepsDir-IsPreorder,
}
use umoci.Layer.Confined.{Confines}

-- A place whose path is its directory or something in it, and the latter for all but directories.
pub record InPlace (flag : TypeFlag) (p : Place) : Type 0 where
  pub near : Near p.dir p.path
  pub below : is_dir_flag flag ≡ false → (c : Text) × (p.path ≡ c ∷ p.dir)

module _ {S : Type 0} (R : S → S → Type 0) (Real : S → Components → Type 0) (root : Components)
    (E : Env S) (te : TarExtractor S) (C : Confines R Real root te.fs_eval E) where
  N : IsPreorder (Calm R Real)
  N = Calm-IsPreorder R Real C.preorder

  copy-R : (fuel fh written : ℕ) → Respects (Calm R Real) (copy E fuel fh written)
  unfolding copy
  copy-R zero fh written = N.same
  copy-R (suc fuel) fh written =
      Respects-bind N (E.copy_buffer fh) _ (C.copy_buffer-R fh)
        (λ r. by_error (λ w. copy-R fuel fh w) r.0 r.1)
    where
      by_error :
          ((w : ℕ) → Respects (Calm R Real) (copy E fuel fh w))
          → (n : ℕ) (o : Option GoError)
          → Respects (Calm R Real) (elim o as (λ _. Program S (ℕ × Option GoError)) [
            | none ↦ done (written + n, none)
            | some e ↦
                if is_interrupted e
                then copy E fuel fh (written + n)
                else done (written + n, some e)
          ])
      by_error again n none = N.same
      by_error again n (some e) =
          Respects-if N (is_interrupted e) (copy E fuel fh (written + n))
            (done (written + n, some e)) (again (written + n)) N.same

  write_data-R :
      (fuel : ℕ) (hdr : TarHeader) (fh : ℕ) → Respects (Calm R Real) (write_data E te fuel hdr fh)
  unfolding write_data
  write_data-R fuel hdr fh =
      Respects-bind N (copy E fuel fh 0) _ (copy-R fuel fh 0) (λ r. by_error r.0 r.1)
    where
      by_error :
          (n : ℕ) (o : Option GoError)
          → Respects (Calm R Real) (elim o [
            | some e ↦ fail (
                wrapped "unpack to regular file"
                  (if n == hdr.size then e else wrapped "short write" e))
            | none ↦
                if n == hdr.size
                then explain "close unpacked regular file" (E.close_file fh)
                else fail (wrapped "unpack to regular file" (sentinel "short write"))
          ])
      by_error n (some e) = N.same
      by_error n none =
          Respects-if N (n == hdr.size) (explain "close unpacked regular file" (E.close_file fh))
            (fail (wrapped "unpack to regular file" (sentinel "short write")))
            (Respects-explain N "close unpacked regular file" _ (C.close_file-R fh)) N.same

  -- What is not a directory is made where its path is real.
  module _ (p : Place) where
    abbrev W : S → S → Type 0
    W = Where R Real (λ s. Real s p.path)

    P : IsPreorder W
    P = Real-IsPreorder R Real C.preorder p.path

    make_regular-R : (fuel : ℕ) (hdr : TarHeader) → Respects W (make_regular E te fuel p hdr)
    make_regular-R fuel hdr =
        Respects-bind P (explain "create regular" (te.fs_eval.create p.path)) _
          (Respects-explain P "create regular" _ (C.create-R p.path))
          (λ fh.
            Respects-handle P (write_data E te fuel hdr fh) _ _ (λ s i. write_data-R fuel hdr fh s)
              (λ u. P.same) (λ e s i. C.close_file-R fh s))

    make_empty-R : Respects W (make_empty E te p)
    make_empty-R =
        Respects-bind P (explain "create rootless block" (te.fs_eval.create p.path)) _
          (Respects-explain P "create rootless block" _ (C.create-R p.path))
          (λ fh.
            Respects-handle P (E.chmod_file fh 0) _ _ (λ s i. C.chmod_file-R fh 0 s) (λ u. P.same)
              (λ e s i. C.close_file-R fh s))

    make_node-R : (hdr : TarHeader) → Respects W (make_node E te p hdr)
    make_node-R hdr =
        let mode = bit_or (tarmode hdr.typeflag) hdr.mode % 4294967296 in
        Respects-bind P
          (explain "mknod" (te.fs_eval.mknod p.path mode (E.mkdev hdr.devmajor hdr.devminor))) _
          (Respects-explain P "mknod" _
            (λ s i. C.mknod-R p.path mode (E.mkdev hdr.devmajor hdr.devminor) s (inl i)))
          (λ u. P.same)

    make_device-R : (hdr : TarHeader) → Respects W (make_device E te p hdr)
    make_device-R hdr =
        Respects-if P te.partial_rootless (make_empty E te p) (make_node E te p hdr) make_empty-R
          (make_node-R hdr)

  make_dir-R :
      (p : Place) (dirlink : Bool)
      → Respects (Where R Real (At R Real p.path)) (make_dir E te p dirlink)
  make_dir-R p dirlink =
      let P = At-IsPreorder R Real C.preorder p.path in
      Respects-if P dirlink (done none)
        (explain "mkdirall" (te.fs_eval.mkdir_all p.path 0o777) >> done none) P.same
        (Respects-bind P (explain "mkdirall" (te.fs_eval.mkdir_all p.path 0o777)) (λ u. done none)
          (Respects-explain P "mkdirall" (te.fs_eval.mkdir_all p.path 0o777)
            (λ s i. C.mkdir_all-R p.path 0o777 s i))
          (λ u. P.same))

  -- The last component of a clean path does not lead up.
  link_parts-IsPlain : (linkname : Text) → IsPlain (link_parts linkname).1
  unfolding link_parts text_eq
  link_parts-IsPlain linkname = by_parts (clean_path linkname) (clean_path-IsProper linkname)
    where
      by_parts :
          (cs : Components)
          → All IsProper cs
          → IsPlain (elim cs as (λ _. Components × Text) [ [] ↦ ([], []) | c ∷ up ↦ (up, c) ]).1
      by_parts [] h = refl
      by_parts (c ∷ up) h = h.0.1

  hard_link_target-R :
      (linkname : Text) → Respects (Calm R Real) (hard_link_target E te root linkname)
  unfolding hard_link_target
  hard_link_target-R linkname =
      Respects-bind N
        (explain "sanitise hardlink target in root"
          (E.secure_join te.fs_eval root (link_parts linkname).0))
        _
        (Respects-explain N "sanitise hardlink target in root" _
          (C.secure_join-R (link_parts linkname).0))
        (λ d. N.same)

  -- The target of a hard link is something in a real directory.
  hard_link_target-At :
      (linkname : Text) (s : S)
      → Returns
          (λ q. At R Real q (hard_link_target E te root linkname s).1)
          (hard_link_target E te root linkname s).0
  unfolding hard_link_target
  hard_link_target-At linkname s =
      elim (Result-cases (E.secure_join te.fs_eval root (link_parts linkname).0 s).0) [
        | inr (e, q) ↦ rw q tt
        | inl (d, q) ↦
            let real =
              Returns-ok (λ d. Real (E.secure_join te.fs_eval root (link_parts linkname).0 s).1 d)
                (E.secure_join te.fs_eval root (link_parts linkname).0 s).0
                (C.secure_join-Real (link_parts linkname).0 s) q in
            rw q (
              near_At R Real d (join_file d (link_parts linkname).1)
                (E.secure_join te.fs_eval root (link_parts linkname).0 s).1
                (join_file-Near d (link_parts linkname).1 (link_parts-IsPlain linkname)) real)
      ]

  -- A hard link in a real directory.
  make_link :
      (target : Components) (p : Place) (c : Text) (s : S)
      → p.path ≡ c ∷ p.dir
      → At R Real target s
      → KeepsDir R Real p.dir s
          ((explain "link" (te.fs_eval.link target p.path) >> done {A = Option ℕ} none) s).1
  make_link target p c s e near = elim (Result-cases (te.fs_eval.link target p.path s).0) [
    | inl (u, q) ↦ rw q linked
    | inr (e', q) ↦ rw q linked
  ]
    where
      linked : KeepsDir R Real p.dir s (te.fs_eval.link target p.path s).1
      linked = rw e (C.link-R target c p.dir s near)

  make_hard_link-R :
      (p : Place) (hdr : TarHeader) (c : Text)
      → p.path ≡ c ∷ p.dir
      → Respects (KeepsDir R Real p.dir) (make_hard_link E te root p hdr)
  make_hard_link-R p hdr c e s real =
      let calm = hard_link_target-R hdr.linkname s in
      elim (Result-cases (hard_link_target E te root hdr.linkname s).0) [
        | inr (e', q) ↦ rw q (calm.0, calm.1 p.dir real)
        | inl (target, q) ↦
            let t = (hard_link_target E te root hdr.linkname s).1 in
            let near =
              Returns-ok (λ q. At R Real q t) (hard_link_target E te root hdr.linkname s).0
                (hard_link_target-At hdr.linkname s) q in
            let linked = make_link target p c t e near (calm.1 p.dir real) in
            rw q (C.preorder.chain calm.0 linked.0, linked.1)
      ]

  make_symlink-R :
      (p : Place) (linkname c : Text)
      → p.path ≡ c ∷ p.dir
      → Respects
          (KeepsDir R Real p.dir)
          (explain "link" (te.fs_eval.symlink linkname p.path) >> done {A = Option ℕ} none)
  make_symlink-R p linkname c e =
      let K = KeepsDir-IsPreorder R Real C.preorder p.dir in
      Respects-bind K (explain "link" (te.fs_eval.symlink linkname p.path)) _
        (Respects-explain K "link" (te.fs_eval.symlink linkname p.path)
          (rw e (C.symlink-R linkname c p.dir)))
        (λ u. K.same)

  -- What creates the path, by the type.
  abbrev made : ℕ → Place → TarHeader → Bool → TypeFlag → Program S (Option ℕ)
  made fuel p hdr dirlink t = elim t [
    | reg ↦ make_regular E te fuel p hdr
    | dir ↦ make_dir E te p dirlink
    | link ↦ make_hard_link E te root p hdr
    | symlink ↦ explain "link" (te.fs_eval.symlink hdr.linkname p.path) >> done none
    | char ↦ make_device E te p hdr
    | block ↦ make_device E te p hdr
    | fifo ↦ make_node E te p hdr
    | custom f ↦ fail (sentinel "unknown typeflag")
  ]

  -- What creates the path keeps the relation and the directory, from a state in which the directory is
  -- real and, unless it is to be a directory, the path too.
  pub create_entry-R :
      (fuel : ℕ) (p : Place) (hdr : TarHeader) (dirlink : Bool) (s : S)
      → InPlace hdr.typeflag p
      → Real s p.dir
      → (is_dir_flag hdr.typeflag ≡ false → Real s p.path)
      → R s (create_entry E te fuel root p hdr dirlink s).1
        × Real (create_entry E te fuel root p hdr dirlink s).1 p.dir
  unfolding create_entry
  create_entry-R fuel p hdr dirlink s i dir_real path_real = by_type hdr.typeflag i.below path_real
    where
      kept : {t : S} → Calm R Real s t → R s t × Real t p.dir
      kept calm = (calm.0, calm.1 p.dir dir_real)

      by_type :
          (t : TypeFlag)
          → (is_dir_flag t ≡ false → (c : Text) × (p.path ≡ c ∷ p.dir))
          → (is_dir_flag t ≡ false → Real s p.path)
          → R s (made fuel p hdr dirlink t s).1 × Real (made fuel p hdr dirlink t s).1 p.dir
      by_type reg below real = kept (make_regular-R p fuel hdr s (real refl))
      by_type dir below real =
          kept (make_dir-R p dirlink s (near_At R Real p.dir p.path s i.near dir_real))
      by_type link below real = let (c, e) = below refl in make_hard_link-R p hdr c e s dir_real
      by_type symlink below real =
          let (c, e) = below refl in make_symlink-R p hdr.linkname c e s dir_real
      by_type char below real = kept (make_device-R p hdr s (real refl))
      by_type block below real = kept (make_device-R p hdr s (real refl))
      by_type fifo below real = kept (make_node-R p hdr s (real refl))
      by_type (custom f) below real = (C.preorder.same s, dir_real)
