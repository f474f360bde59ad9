-- ===== src/Tests/Modes.antt =====
-- pkg/unpriv on a small tree of which only the modes are known.
use Prim.Native.Nat.{bit_and}
use umoci.Base.{
  ℕ, ◌==◌, ==_iff, ◌≡◌, refl, sym, ap, ◌∙◌, inl, Bool, true, false, ◌&&◌, ◌||◌, List, [], ◌∷◌, Text,
  text_eq, Option, none, some, codes, arith, if◌then◌else◌,
}
use umoci.Base.Errors.{GoError, sentinel, is_error}
use umoci.Base.Result.{Result, ok, err}
use umoci.Base.Program.{Program, done, fail}
use umoci.Unpriv.Os.{FileInfo, Os, Visit}
use umoci.Unpriv.Wrap.{wrap}
use umoci.Unpriv.Trees.{walk}
use umoci.Unpriv.Modes.{View, SameModes, IsLawful, wrap-SameModes}
use umoci.Unpriv.WalkModes.{Everywhere, IsReading, walk-SameModes}

-- The modes of the files by their numbers, and the calls of Chmod that were refused.
record Modes : Type 0 where
  modes : ℕ → Option ℕ
  refused : List (ℕ × ℕ)

abbrev set_mode : ℕ → ℕ → Modes → Modes
set_mode f m s = record s { modes = λ g. if f == g then some m else s.modes g }

abbrev note : ℕ → ℕ → Modes → Modes
note f m s = record s { refused = (f, m) ∷ s.refused }

-- The paths /a and /a/. name one directory, and /c is a hard link to /a/b.
abbrev file_at : Text → ℕ
file_at q =
    if text_eq q (codes "/")
    then 1
    else if text_eq q (codes "/a") || text_eq q (codes "/a/.")
    then 2
    else if text_eq q (codes "/a/b") || text_eq q (codes "/c")
    then 3
    else 0

unfoldable noted : List (ℕ × ℕ) → ℕ → ℕ → Bool
noted [] f m = false
noted ((g, n) ∷ log) f m = let rest = noted log f m in (f == g && m == n) || rest

abbrev missing : GoError
missing = sentinel "file does not exist"

abbrev directory : ℕ → FileInfo
directory m = record {
  name = codes "a";
  mode = m;
  is_dir = true;
  is_symlink = false;
  atime = 0;
  mtime = 0;
}

abbrev lstat_of : Option ℕ → Modes → Result GoError FileInfo × Modes
lstat_of none s = (err missing, s)
lstat_of (some m) s = (ok (directory m), s)

-- The system refuses the mode 0111, and a file that is not there.
abbrev chmod_of : Option ℕ → Bool → ℕ → ℕ → Modes → Result GoError (Unit {0}) × Modes
chmod_of none denied f m s = (err missing, note f m s)
chmod_of (some old) true f m s = (err (sentinel "operation not permitted"), note f m s)
chmod_of (some old) false f m s = (ok tt, set_mode f m s)

abbrev refuse : {A : Type 0} → Program Modes A
refuse = fail (sentinel "permission denied")

abbrev system : Os Modes
system = record {
  lstat = λ p s. lstat_of (s.modes (file_at p)) s;
  stat = λ p s. lstat_of (s.modes (file_at p)) s;
  chmod = λ p m s. chmod_of (s.modes (file_at p)) (m == 0o111) (file_at p) m s;
  chtimes = λ p a m. done tt;
  lutimes = λ p a m. done tt;
  open_file = λ p. done 3;
  create = λ p. refuse;
  close = λ fd. done tt;
  readdir = λ fd. done [];
  readdirnames = λ fd. done (codes "b" ∷ []);
  readlink = λ p. refuse;
  symlink = λ target p. refuse;
  linkat = λ old p. refuse;
  remove = λ p. refuse;
  mkdir = λ p m. refuse;
  mknod = λ p m d. refuse;
  llistxattr = λ p. refuse;
  lremovexattr = λ p n. refuse;
  lsetxattr = λ p n v. refuse;
  lgetxattr = λ p n. refuse;
}

abbrev view : View Modes
view = record {
  file = λ s p. file_at p;
  mode = λ s f. s.modes f;
  Refused = λ s f m. noted s.refused f m ≡ true;
}

lstat_keeps : (o : Option ℕ) (s : Modes) → (lstat_of o s).1 ≡ s
lstat_keeps none s = refl
lstat_keeps (some m) s = refl

abbrev mode_told : Result GoError FileInfo → Option ℕ
mode_told (ok fi) = some fi.mode
mode_told (err e) = none

lstat_tells : (o : Option ℕ) (s : Modes) → mode_told (lstat_of o s).0 ≡ o
lstat_tells none s = refl
lstat_tells (some m) s = refl

pair_refl : (f m : ℕ) → (f == f && m == m) ≡ true
pair_refl f m = ground arith

noted_more : (b : Bool) {c : Bool} → c ≡ true → (b || c) ≡ true
noted_more true h = refl
noted_more false h = h

noted_now : (f m : ℕ) (s : Modes) → noted (note f m s).refused f m ≡ true
unfolding noted
noted_now f m s = rw (pair_refl f m) refl

module _ (f n : ℕ) (s : Modes) where
  chmod_grows :
      (o : Option ℕ) (b : Bool) (g m : ℕ)
      → noted s.refused g m ≡ true
      → noted (chmod_of o b f n s).1.refused g m ≡ true
  unfolding noted
  chmod_grows none b g m h = noted_more (g == f && m == n) h
  chmod_grows (some old) true g m h = noted_more (g == f && m == n) h
  chmod_grows (some old) false g m h = h

  chmod_notes :
      (o : Option ℕ) (b : Bool) {e : GoError}
      → (chmod_of o b f n s).0 ≡ err e
      → noted (chmod_of o b f n s).1.refused f n ≡ true
  chmod_notes none b h = noted_now f n s
  chmod_notes (some old) true h = noted_now f n s
  chmod_notes (some old) false h = cc

  chmod_fails :
      (o : Option ℕ) (b : Bool) {e : GoError}
      → (chmod_of o b f n s).0 ≡ err e
      → (g : ℕ) → s.modes g ≡ (chmod_of o b f n s).1.modes g
  chmod_fails none b h g = refl
  chmod_fails (some old) true h g = refl
  chmod_fails (some old) false h g = cc

  chmod_sets :
      (o : Option ℕ) (b : Bool)
      → (chmod_of o b f n s).0 ≡ ok tt
      → (chmod_of o b f n s).1.modes f ≡ some n
  chmod_sets none b h = cc
  chmod_sets (some old) true h = cc
  chmod_sets (some old) false h = rw ((==_iff f f).1 refl) refl

  chmod_elsewhere :
      (o : Option ℕ) (b : Bool) (g : ℕ)
      → (f == g) ≡ false
      → s.modes g ≡ (chmod_of o b f n s).1.modes g
  chmod_elsewhere none b g ne = refl
  chmod_elsewhere (some old) true g ne = refl
  chmod_elsewhere (some old) false g ne = rw ne refl

unchanged : {s t : Modes} → s ≡ t → SameModes view Everywhere s t
unchanged {s} {t} e = record {
  files = λ q k. refl;
  refusals = λ f m r. rw (← e) r;
  modes = λ q k. inl (ap (λ (u : Modes). u.modes (file_at q)) e);
}

system-IsLawful : IsLawful system view Everywhere
system-IsLawful = record {
  lstat-same = λ p s. unchanged (sym (lstat_keeps (s.modes (file_at p)) s));
  lstat-mode = λ p s k e.
      ap (λ (t : Modes). t.modes (file_at p)) (lstat_keeps (s.modes (file_at p)) s)
      ∙ sym (lstat_tells (s.modes (file_at p)) s)
      ∙ ap mode_told e;
  chmod_file = λ p m s q k. refl;
  chmod_refusals =
      λ p n s f m r. chmod_grows (file_at p) n s (s.modes (file_at p)) (n == 0o111) f m r;
  chmod_refused = λ p m s k e. chmod_notes (file_at p) m s (s.modes (file_at p)) (m == 0o111) e;
  chmod_failed = λ p m s e. chmod_fails (file_at p) m s (s.modes (file_at p)) (m == 0o111) e;
  chmod_self = λ p m s k e. chmod_sets (file_at p) m s (s.modes (file_at p)) (m == 0o111) e;
  chmod_ne =
      λ p m s f k ne. chmod_elsewhere (file_at p) m s (s.modes (file_at p)) (m == 0o111) f ne;
  chtimes-same = λ p a m s. unchanged refl;
}

system-IsReading : IsReading system view
system-IsReading = record { open-same = λ p s. unchanged refl; names-same = λ fd s. unchanged refl }

-- A tree /a/b in which /a gives its owner too few rights.
abbrev tree_with : ℕ → Modes
tree_with m = record {
  modes = λ f.
      if f == 2 then some m else if f == 3 then some 0o700 else if f == 1 then some 0o755 else none;
  refused = [];
}

abbrev closed_tree : Modes
closed_tree = tree_with 0o055

abbrev allowed : Option ℕ → Bool
allowed none = false
allowed (some m) = bit_and m 0o700 == 0o700

-- A call that needs the rights of /a.
abbrev entering : Text → Program Modes (Unit {0})
entering p s = ((if allowed (s.modes 2) then ok tt else err (sentinel "permission denied")), s)

wrap-entering : (wrap system (codes "/a/b") entering closed_tree).0 ≡ ok tt
unfolding wrap is_error
wrap-entering = refl

abbrev mode_of_a : Modes → Option ℕ
mode_of_a s = s.modes 2

given_back : mode_of_a (wrap system (codes "/a/b") entering closed_tree).1 ≡ some 0o055
unfolding wrap is_error
given_back = refl

-- Where the system refuses to give the mode back.
not_given_back : mode_of_a (wrap system (codes "/a/b") entering (tree_with 0o111)).1 ≡ some 0o711
unfolding wrap is_error
not_given_back = refl

wrap-SameModes_example :
    SameModes view Everywhere closed_tree (wrap system (codes "/a/b") entering closed_tree).1
wrap-SameModes_example =
    wrap-SameModes system view Everywhere system-IsLawful (codes "/a/b") entering (λ n. tt)
      (λ s. unchanged refl) closed_tree

abbrev visiting : Text → Visit → Program Modes (Unit {0})
visiting p v = done tt

walk-SameModes_example :
    SameModes view Everywhere closed_tree (walk system 5 (codes "/a") visiting closed_tree).1
walk-SameModes_example =
    walk-SameModes system view system-IsLawful system-IsReading visiting (λ p v s. unchanged refl) 5
      (codes "/a") closed_tree
