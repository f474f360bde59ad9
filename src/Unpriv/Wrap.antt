-- ===== src/Unpriv/Wrap.antt =====
-- pkg/unpriv/unpriv.go: Wrap, which makes the parents of a path accessible around a call.
use Prim.Native.Nat.{bit_or}
use umoci.Base.{ℕ, zero, suc, ◌-◌, List, [], ◌∷◌, Text, length, if◌then◌else◌}
use umoci.Base.Lists.{take}
use umoci.Base.Errors.{sentinel, wrapped}
use umoci.Base.Result.{ok, err}
use umoci.Base.Program.{Program, done, fail, ◌>>=◌, ◌>>◌, attempt, explain, finally}
use umoci.FilePath.{is_abs, clean, join, dir}
use umoci.IdTools.Parse.{split}
use umoci.Unpriv.Os.{FileInfo, Os, is_permission}

-- splitpath
unfoldable pub splitpath : Text → List Text
unfolding split clean is_abs
splitpath path =
    let parts = split b'/' (clean path) in
    if is_abs (clean path) then (b'/' ∷ []) ∷ parts else parts

-- filepath.Join(parts[:n]...)
abbrev pub parent : List Text → ℕ → Text
parent parts n = join (take n parts)

-- The parents that are made accessible: `count` of them, from parts[:start] down.
unfoldable pub parents_from : List Text → ℕ → ℕ → List Text
unfolding join
parents_from parts start zero = []
parents_from parts start (suc count) = parent parts start ∷ parents_from parts (suc start) count

module _ {S : Type 0} (O : Os S) where
  -- fiRestore, which drops its errors.
  unfoldable pub fi_restore : Text → FileInfo → Program S (Unit {0})
  fi_restore path fi = attempt (O.chmod path fi.mode) >>= λ _.
      attempt (O.chtimes path fi.atime fi.mtime) >>= λ _. done tt

  -- The first loop of Wrap, from the whole parent up. The last error stands for a panic on parts[:-1].
  unfoldable pub find_start : List Text → ℕ → Program S ℕ
  unfolding join
  find_start parts zero = attempt (O.lstat (parent parts 0)) >>= λ r. elim r [
    | ok fi ↦ done 0
    | err e ↦ fail (
        if is_permission e
        then sentinel "slice bounds out of range"
        else wrapped "unpriv.wrap: lstat parent" e)
  ]
  find_start parts (suc n) =
      let above = find_start parts n in
      attempt (O.lstat (parent parts (suc n))) >>= λ r. elim r [
        | ok fi ↦ done (suc n)
        | err e ↦ if is_permission e then above else fail (wrapped "unpriv.wrap: lstat parent" e)
      ]

  -- The second loop of Wrap, with the call at its end: each parent is restored behind what follows it.
  unfoldable pub chmod_down : {A : Type 0} → List Text → Program S A → Program S A
  unfolding fi_restore
  chmod_down [] body = body
  chmod_down (current ∷ below) body =
      explain "unpriv.wrap: lstat parent" (O.lstat current) >>= λ fi.
      explain "unpriv.wrap: chmod parent" (O.chmod current (bit_or fi.mode 0o700))
      >> finally (chmod_down below body) (fi_restore current fi)

  -- Wrap once the parts of the parent are known.
  unfoldable pub wrap_parts : {A : Type 0} → List Text → Program S A → Program S A
  unfolding find_start chmod_down parents_from
  wrap_parts parts body = find_start parts (length parts) >>= λ start.
      chmod_down (parents_from parts start (suc (length parts) - start)) body

  -- Wrap
  unfoldable pub wrap : {A : Type 0} → Text → (Text → Program S A) → Program S A
  unfolding wrap_parts splitpath dir
  wrap path fn = attempt (fn path) >>= λ r. elim r [
    | ok a ↦ done a
    | err e ↦ if is_permission e then wrap_parts (splitpath (dir path)) (fn path) else fail e
  ]
