-- ===== src/Unpriv/Modes.antt =====
-- pkg/unpriv/unpriv.go: Wrap and the modes of directories.
use Prim.Native.Nat.{bit_or}
use umoci.Base.{
  ℕ, zero, suc, ◌-◌, ◌==◌, ==_iff, String, ◌≡◌, refl, sym, ◌∙◌, ◌⊎◌, inl, inr, false, List, [], ◌∷◌,
  Text, length, All, Option, some, Bool-cases,
}
use umoci.Base.Errors.{GoError}
use umoci.Base.Result.{ok, err, Result-cases}
use umoci.Base.Program.{
  Program, ◌>>◌, explain, finally, Respects, IsPreorder, Respects-bind, Respects-handle,
  Respects-if,
}
use umoci.FilePath.{dir}
use umoci.Unpriv.Os.{FileInfo, Os, is_permission}
use umoci.Unpriv.Wrap.{
  splitpath, parent, parents_from, fi_restore, find_start, chmod_down, wrap_parts, wrap,
}

-- What there is to see of a state: the file that a path names, by its number, 0 where there is none; the
-- mode of a file; and the calls of Chmod, by file and mode, that were refused up to now.
pub record View (S : Type 0) : Type 1 where
  pub file : S → Text → ℕ
  pub mode : S → ℕ → Option ℕ
  pub Refused : S → ℕ → ℕ → Type 0

-- The mode of the file is the same, or the Chmod that gives it back this mode was refused.
abbrev pub SameMode : {S : Type 0} → View S → S → S → ℕ → Type 0
SameMode V s t f = (V.mode s f ≡ V.mode t f) ⊎ ((m : ℕ) × (V.mode s f ≡ some m) × V.Refused t f m)

-- Paths of K name the files that they named, and each of these has its mode, unless the Chmod that gives
-- it back was refused; other paths may come and go.
pub record SameModes {S : Type 0} (V : View S) (K : Text → Type 0) (s t : S) : Type 0 where
  pub files : (q : Text) → K q → V.file s q ≡ V.file t q
  pub refusals : (f m : ℕ) → V.Refused s f m → V.Refused t f m
  pub modes : (q : Text) → K q → SameMode V s t (V.file s q)

-- The same, except for the mode of the file that p names.
pub record SameBut {S : Type 0} (V : View S) (K : Text → Type 0) (p : Text) (s t : S) : Type 0 where
  pub files : (q : Text) → K q → V.file s q ≡ V.file t q
  pub refusals : (f m : ℕ) → V.Refused s f m → V.Refused t f m
  pub modes : (q : Text) → K q → (V.file s p == V.file s q) ≡ false → SameMode V s t (V.file s q)

-- What the system promises about the paths of K, none of which is a symbolic link: Lstat tells the mode
-- of the file, Chmod changes that of its file alone, or nothing if it is refused.
pub record IsLawful {S : Type 0} (O : Os S) (V : View S) (K : Text → Type 0) : Type 0 where
  pub lstat-same : (p : Text) → Respects (SameModes V K) (O.lstat p)
  pub lstat-mode :
      (p : Text) (s : S) {fi : FileInfo}
      → K p
      → (O.lstat p s).0 ≡ ok fi
      → V.mode (O.lstat p s).1 (V.file (O.lstat p s).1 p) ≡ some fi.mode
  pub chmod_file :
      (p : Text) (m : ℕ) (s : S) (q : Text) → K q → V.file s q ≡ V.file (O.chmod p m s).1 q
  pub chmod_refusals :
      (p : Text) (n : ℕ) (s : S) (f m : ℕ) → V.Refused s f m → V.Refused (O.chmod p n s).1 f m
  pub chmod_refused :
      (p : Text) (m : ℕ) (s : S) {e : GoError}
      → K p
      → (O.chmod p m s).0 ≡ err e
      → V.Refused (O.chmod p m s).1 (V.file s p) m
  pub chmod_failed :
      (p : Text) (m : ℕ) (s : S) {e : GoError}
      → (O.chmod p m s).0 ≡ err e
      → (f : ℕ) → V.mode s f ≡ V.mode (O.chmod p m s).1 f
  pub chmod_self :
      (p : Text) (m : ℕ) (s : S)
      → K p
      → (O.chmod p m s).0 ≡ ok tt
      → V.mode (O.chmod p m s).1 (V.file s p) ≡ some m
  pub chmod_ne :
      (p : Text) (m : ℕ) (s : S) (f : ℕ)
      → K p
      → (V.file s p == f) ≡ false
      → V.mode s f ≡ V.mode (O.chmod p m s).1 f
  pub chtimes-same : (p : Text) (a m : ℕ) → Respects (SameModes V K) (O.chtimes p a m)

module _ {S : Type 0} (O : Os S) (V : View S) (K : Text → Type 0) (L : IsLawful O V K) where
  abbrev pub Same : S → S → Type 0
  Same = SameModes V K

  SameMode-chain :
      (s t u : S) (f : ℕ)
      → ((f m : ℕ) → V.Refused t f m → V.Refused u f m)
      → SameMode V s t f
      → SameMode V t u f
      → SameMode V s u f
  SameMode-chain s t u f grow (inl e) (inl g) = inl (e ∙ g)
  SameMode-chain s t u f grow (inl e) (inr (m, g, r)) = inr (m, e ∙ g, r)
  SameMode-chain s t u f grow (inr (m, e, r)) g = inr (m, e, grow f m r)

  pub SameModes-IsPreorder : IsPreorder Same
  SameModes-IsPreorder = record {
    same = λ s. record { files = λ q k. refl; refusals = λ f m r. r; modes = λ q k. inl refl };
    chain = λ {s} {t} {u} h g. record {
      files = λ q k. h.files q k ∙ g.files q k;
      refusals = λ f m r. g.refusals f m (h.refusals f m r);
      modes = λ q k.
          SameMode-chain s t u (V.file s q) g.refusals (h.modes q k)
            (rw (h.files q k) (g.modes q k));
    };
  }

  pub Same-but : (p : Text) (s t : S) → Same s t → SameBut V K p s t
  Same-but p s t h = record { files = h.files; refusals = h.refusals; modes = λ q k n. h.modes q k }

  pub SameBut-chain : (p : Text) {s t u : S} → SameBut V K p s t → Same t u → SameBut V K p s u
  SameBut-chain p {s} {t} {u} h g = record {
    files = λ q k. h.files q k ∙ g.files q k;
    refusals = λ f m r. g.refusals f m (h.refusals f m r);
    modes = λ q k n.
        SameMode-chain s t u (V.file s q) g.refusals (h.modes q k n)
          (rw (h.files q k) (g.modes q k));
  }

  -- A Chmod of p changes the mode of its file at most.
  pub chmod-SameBut :
      (p : Text) (m : ℕ) {s t : S} → K p → SameBut V K p s t → SameBut V K p s (O.chmod p m t).1
  chmod-SameBut p m {s} {t} kp h = record {
    files = λ q k. h.files q k ∙ L.chmod_file p m t q k;
    refusals = λ f n r. L.chmod_refusals p m t f n (h.refusals f n r);
    modes = λ q k n.
        SameMode-chain s t (O.chmod p m t).1 (V.file s q) (L.chmod_refusals p m t) (h.modes q k n)
          (inl (L.chmod_ne p m t (V.file s q) kp (rw (h.files p kp) at n)));
  }

  -- A Chmod that gives the file of p the mode that it had.
  given_back :
      (p : Text) (m : ℕ) {s t : S}
      → K p
      → V.mode s (V.file s p) ≡ some m
      → SameBut V K p s t
      → Same s (O.chmod p m t).1
  given_back p m {s} {t} kp from h = record {
    files = but.files;
    refusals = but.refusals;
    modes = λ q k. elim (Bool-cases (V.file s p == V.file s q)) [
      | inr n ↦ but.modes q k n
      | inl e ↦ rw (← (==_iff (V.file s p) (V.file s q)).0 e) by_result
    ];
  }
    where
      but : SameBut V K p s (O.chmod p m t).1
      but = chmod-SameBut p m kp h

      by_result : SameMode V s (O.chmod p m t).1 (V.file s p)
      by_result = elim (Result-cases (O.chmod p m t).0) [
        | inl (tt, q) ↦ inl (from ∙ sym (rw (h.files p kp) (L.chmod_self p m t kp q)))
        | inr (e, q) ↦ inr (m, from, rw (h.files p kp) (L.chmod_refused p m t kp q))
      ]

  -- fiRestore gives the file of p the mode that it had.
  pub restored :
      (p : Text) (fi : FileInfo) {s t : S}
      → K p
      → V.mode s (V.file s p) ≡ some fi.mode
      → SameBut V K p s t
      → Same s (fi_restore O p fi t).1
  unfolding fi_restore
  restored p fi {s} {t} kp from h =
      SameModes-IsPreorder.chain (given_back p fi.mode kp from h)
        (L.chtimes-same p fi.atime fi.mtime (O.chmod p fi.mode t).1)

  refused_idle :
      (p : Text) (m : ℕ) (s : S) {e : GoError}
      → (O.chmod p m s).0 ≡ err e
      → Same s (O.chmod p m s).1
  refused_idle p m s q = record {
    files = L.chmod_file p m s;
    refusals = L.chmod_refusals p m s;
    modes = λ r k. inl (L.chmod_failed p m s q (V.file s r));
  }

  -- A Chmod, a program that keeps the modes, and fiRestore: what each wrapped call does.
  pub chmod_around :
      {A : Type 0} (p : Text) (m : ℕ) (message : String) (fi : FileInfo) (body : Program S A)
      (s : S)
      → K p
      → V.mode s (V.file s p) ≡ some fi.mode
      → Respects Same body
      → Same s ((explain message (O.chmod p m) >> finally body (fi_restore O p fi)) s).1
  chmod_around p m message fi body s k from h = elim (Result-cases (O.chmod p m s).0) [
    | inr (e, q) ↦ rw q (refused_idle p m s q)
    | inl (tt, q) ↦ rw q (
        restored p fi k from (
          SameBut-chain p (chmod-SameBut p m k (Same-but p s s (SameModes-IsPreorder.same s)))
            (h (O.chmod p m s).1)))
  ]

  find_start-Same : (parts : List Text) (n : ℕ) → Respects Same (find_start O parts n)
  unfolding find_start
  find_start-Same parts zero =
      Respects-handle SameModes-IsPreorder (O.lstat (parent parts 0)) _ _
        (L.lstat-same (parent parts 0)) (λ fi. SameModes-IsPreorder.same)
        (λ e. SameModes-IsPreorder.same)
  find_start-Same parts (suc n) =
      Respects-handle SameModes-IsPreorder (O.lstat (parent parts (suc n))) _ _
        (L.lstat-same (parent parts (suc n))) (λ fi. SameModes-IsPreorder.same)
        (λ e.
          Respects-if SameModes-IsPreorder (is_permission e) _ _ (find_start-Same parts n)
            SameModes-IsPreorder.same)

  chmod_down-Same :
      {A : Type 0} (ps : List Text) (body : Program S A)
      → All K ps
      → Respects Same body
      → Respects Same (chmod_down O ps body)
  unfolding chmod_down
  chmod_down-Same [] body k h s = h s
  chmod_down-Same (p ∷ ps) body k h s = elim (Result-cases (O.lstat p s).0) [
    | inr (e, q) ↦ rw q (L.lstat-same p s)
    | inl (fi, q) ↦ rw q (
        SameModes-IsPreorder.chain (L.lstat-same p s) (
          chmod_around p (bit_or fi.mode 0o700) "unpriv.wrap: chmod parent" fi
            (chmod_down O ps body) (O.lstat p s).1 k.0 (L.lstat-mode p s k.0 q)
            (chmod_down-Same ps body k.1 h)))
  ]

  parents_from-All :
      (parts : List Text) (start count : ℕ)
      → ((n : ℕ) → K (parent parts n))
      → All K (parents_from parts start count)
  unfolding parents_from
  parents_from-All parts start zero k = tt
  parents_from-All parts start (suc count) k = (k start, parents_from-All parts (suc start) count k)

  wrap_parts-Same :
      {A : Type 0} (parts : List Text) (body : Program S A)
      → ((n : ℕ) → K (parent parts n))
      → Respects Same body
      → Respects Same (wrap_parts O parts body)
  unfolding wrap_parts
  wrap_parts-Same parts body k h =
      Respects-bind SameModes-IsPreorder (find_start O parts (length parts)) _
        (find_start-Same parts (length parts))
        (λ start.
          chmod_down-Same (parents_from parts start (suc (length parts) - start)) body
            (parents_from-All parts start (suc (length parts) - start) k) h)

  -- Where no directory on the way is a symbolic link: a call under Wrap that itself keeps the modes of
  -- the files named by the paths of K, among them the parents of its path, leaves each of them with its
  -- mode, whatever the calls return, except where the Chmod that gives this mode back was refused.
  pub wrap-SameModes :
      {A : Type 0} (path : Text) (fn : Text → Program S A)
      → ((n : ℕ) → K (parent (splitpath (dir path)) n))
      → Respects (SameModes V K) (fn path)
      → Respects (SameModes V K) (wrap O path fn)
  unfolding wrap
  wrap-SameModes path fn k h =
      Respects-handle SameModes-IsPreorder (fn path) _ _ h (λ a. SameModes-IsPreorder.same)
        (λ e.
          Respects-if SameModes-IsPreorder (is_permission e) _ _
            (wrap_parts-Same (splitpath (dir path)) (fn path) k h) SameModes-IsPreorder.same)
