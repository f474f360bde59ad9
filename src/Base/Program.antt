-- ===== src/Base/Program.antt =====
-- Code that changes a state and may fail: the state comes back with an error too.
use mathlib.Core.Bool.{Bool, true, false}
use Prim.Native.String.{String}
use umoci.Base.Result.{Result, ok, err, Returns}
use umoci.Base.Errors.{GoError, wrapped}
use umoci.Base.Tests.{if◌then◌else◌}

abbrev pub Program : Type 0 → Type 0 → Type 0
Program S A = S → Result GoError A × S

module _ {S : Type 0} where
  abbrev pub done : {A : Type 0} → A → Program S A
  done a s = (ok a, s)

  abbrev pub fail : {A : Type 0} → GoError → Program S A
  fail e s = (err e, s)

  -- What follows a call that has returned.
  abbrev pub after_call :
      {A B : Type 0} → (A → Program S B) → Result GoError A × S → Result GoError B × S
  after_call f (ok a, s) = f a s
  after_call f (err e, s) = (err e, s)

  infixr 5 ◌>>=◌ ◌>>◌
  abbrev pub ◌>>=◌ : {A B : Type 0} → Program S A → (A → Program S B) → Program S B
  ◌>>=◌ m f s = after_call f (m s)

  abbrev pub ◌>>◌ : {A B : Type 0} → Program S A → Program S B → Program S B
  m >> k = m >>= λ _. k

  -- A call whose error is a value of the program.
  abbrev pub attempt : {A : Type 0} → Program S A → Program S (Result GoError A)
  attempt m s = let r = m s in (ok r.0, r.1)

  abbrev pub returning : {A : Type 0} → Result GoError A → Program S A
  returning r s = (r, s)

  -- The message that a call's error is wrapped in.
  abbrev pub explain : {A : Type 0} → String → Program S A → Program S A
  explain message m = attempt m >>= λ r. elim r [ ok a ↦ done a | err e ↦ fail (wrapped message e) ]

  -- A call, and what is deferred behind it.
  abbrev pub finally : {A : Type 0} → Program S A → Program S (Unit {0}) → Program S A
  finally m d = attempt m >>= λ r. attempt d >>= λ _. returning r

  -- A call and one deferred behind it, whose error counts where the call has none.
  abbrev pub and_finally : {A : Type 0} → Program S A → Program S (Unit {0}) → Program S A
  and_finally m d = attempt m >>= λ r. attempt d >>= λ q. elim r [
    | ok a ↦ elim q [ ok _ ↦ done a | err e ↦ fail e ]
    | err e ↦ fail e
  ]

  -- The state after the call stands in the relation to the one before, whatever is returned.
  abbrev pub Respects : {A : Type 0} → (S → S → Type 0) → Program S A → Type 0
  Respects R m = (s : S) → R s (m s).1

  -- The relations that a sequence of calls respects when each call does.
  pub record IsPreorder (R : S → S → Type 0) : Type 0 where
    pub same : (s : S) → R s s
    pub chain : {s t u : S} → R s t → R t u → R s u

  module _ {R : S → S → Type 0} (P : IsPreorder R) where
    pub Respects-bind :
        {A B : Type 0} (m : Program S A) (f : A → Program S B)
        → Respects R m
        → ((a : A) → Respects R (f a))
        → Respects R (m >>= f)
    Respects-bind {A = A} {B = B} m f h k s = P.chain (h s) (rest (m s))
      where
        rest : (r : Result GoError A × S) → R r.1 (after_call f r).1
        rest (ok a, t) = k a t
        rest (err e, t) = P.same t

    pub Respects-attempt : {A : Type 0} (m : Program S A) → Respects R m → Respects R (attempt m)
    Respects-attempt m h s = h s

    pub Respects-explain :
        {A : Type 0} (message : String) (m : Program S A)
        → Respects R m
        → Respects R (explain message m)
    Respects-explain {A = A} message m h =
        Respects-bind (attempt m) (λ r. elim r [ ok a ↦ done a | err e ↦ fail (wrapped message e) ])
          h report
      where
        report :
            (r : Result GoError A)
            → Respects R (elim r [ ok a ↦ done a | err e ↦ fail (wrapped message e) ])
        report (ok a) s = P.same s
        report (err e) s = P.same s

    pub Respects-handle :
        {A B : Type 0} (m : Program S A) (f : A → Program S B) (g : GoError → Program S B)
        → Respects R m
        → ((a : A) → Respects R (f a))
        → ((e : GoError) → Respects R (g e))
        → Respects R (attempt m >>= λ r. elim r [ ok a ↦ f a | err e ↦ g e ])
    Respects-handle {A = A} {B = B} m f g h hf hg =
        Respects-bind (attempt m) (λ r. elim r [ ok a ↦ f a | err e ↦ g e ]) h by_case
      where
        by_case : (r : Result GoError A) → Respects R (elim r [ ok a ↦ f a | err e ↦ g e ])
        by_case (ok a) = hf a
        by_case (err e) = hg e

    pub Respects-if :
        {A : Type 0} (c : Bool) (m k : Program S A)
        → Respects R m
        → Respects R k
        → Respects R (if c then m else k)
    Respects-if true m k h g = h
    Respects-if false m k h g = g

  -- What holds of the value of a call, whenever it returns one.
  abbrev pub Yields : {A : Type 0} → (A → Type 0) → Program S A → Type 0
  Yields P m = (s : S) → Returns P (m s).0

  pub Yields-bind :
      {A B : Type 0} (P : A → Type 0) (Q : B → Type 0) (m : Program S A) (f : A → Program S B)
      → Yields P m
      → ((a : A) → P a → Yields Q (f a))
      → Yields Q (m >>= f)
  Yields-bind {A = A} {B = B} P Q m f h k s = rest (m s) (h s)
    where
      rest : (r : Result GoError A × S) → Returns P r.0 → Returns Q (after_call f r).0
      rest (ok a, t) holds = k a holds t
      rest (err e, t) holds = tt

  -- Where nothing is known of the value that is passed on.
  pub Yields-then :
      {A B : Type 0} (Q : B → Type 0) (m : Program S A) (f : A → Program S B)
      → ((a : A) → Yields Q (f a))
      → Yields Q (m >>= f)
  Yields-then {A = A} {B = B} Q m f k s = rest (m s)
    where
      rest : (r : Result GoError A × S) → Returns Q (after_call f r).0
      rest (ok a, t) = k a t
      rest (err e, t) = tt

  pub Yields-explain :
      {A : Type 0} (P : A → Type 0) (message : String) (m : Program S A)
      → Yields P m
      → Yields P (explain message m)
  Yields-explain {A = A} P message m h s = rest (m s).0 (h s) (m s).1
    where
      rest :
          (r : Result GoError A)
          → Returns P r
          → Yields P (elim r [ ok a ↦ done a | err e ↦ fail (wrapped message e) ])
      rest (ok a) holds t = holds
      rest (err e) holds t = tt

  module _ {R : S → S → Type 0} (P : IsPreorder R) where
    -- A call, and one that is made with the value of the first.
    pub Respects-value :
        {A B : Type 0} (V : A → Type 0) (m : Program S A) (f : A → Program S B)
        → Respects R m
        → Yields V m
        → ((a : A) → V a → Respects R (f a))
        → Respects R (m >>= f)
    Respects-value {A = A} {B = B} V m f h v k s = P.chain (h s) (rest (m s) (v s))
      where
        rest : (r : Result GoError A × S) → Returns V r.0 → R r.1 (after_call f r).1
        rest (ok a, t) holds = k a holds t
        rest (err e, t) holds = P.same t

    pub Respects-finally :
        {A : Type 0} (m : Program S A) (d : Program S (Unit {0}))
        → Respects R m
        → Respects R d
        → Respects R (finally m d)
    Respects-finally m d h g s = P.chain (h s) (g (m s).1)

    pub Respects-and_finally :
        {A : Type 0} (m : Program S A) (d : Program S (Unit {0}))
        → Respects R m
        → Respects R d
        → Respects R (and_finally m d)
    Respects-and_finally {A = A} m d h g s =
        P.chain (h s) (P.chain (g (m s).1) (rest (m s).0 (d (m s).1).0 (d (m s).1).1))
      where
        rest :
            (r : Result GoError A) (q : Result GoError (Unit {0}))
            → Respects R
                (elim r [ ok a ↦ elim q [ ok _ ↦ done a | err e ↦ fail e ] | err e ↦ fail e ])
        rest (ok a) (ok u) t = P.same t
        rest (ok a) (err e) t = P.same t
        rest (err e) q t = P.same t
