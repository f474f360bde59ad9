-- ===== src/Hardening/Verified.antt =====
-- pkg/hardening/verified_reader.go: one Read, and what verify accepts.
use Prim.Native.Nat.{min}
use umoci.Base.{
  ℕ, ◌+◌, ◌-◌, ◌≤◌, ◌<◌, ◌≡◌, refl, ◌⊎◌, inl, inr, false, Option, none, some, String, Text, length,
  arith, ltb, ◌==◌, eq_iff, Bool-cases,
}
use umoci.Base.Int.{ℤ, pos, negsuc}
use umoci.Hardening.Reader.{
  IoError, eof, Hashing, Verifier, Reader, raw, verified, Source, is_noop, digested, Plan,
  unchecked, counted, probe, stop, plan, check_size, verify, Step, finish, of_unchecked, of_counted,
  of_probe, of_stop, outcome, read,
}

-- io.Reader's contract: no more bytes than the buffer holds.
pub record IsLawful {R : Type 0} (src : Source R) : Type 0 where
  pub fits : (k : ℕ) (r : R) → length (src.read k r).bytes ≤ k

-- With an expected size, the count is that of the bytes delivered, and they are not too many; or
-- the stream has been seen to go on past that size.
abbrev pub SizeTracks : ℤ → ℕ → ℕ → Type 0
SizeTracks (negsuc _) current delivered = Unit {0}
SizeTracks (pos size) current delivered =
    (delivered ≤ size) × ((current ≡ delivered) ⊎ (size < current))

-- As many bytes as expected, if a size is expected.
abbrev pub SizeMatches : ℤ → ℕ → Type 0
SizeMatches (negsuc _) n = Unit {0}
SizeMatches (pos size) n = n ≡ size

-- The bytes have the expected digest and size.
pub record Matches (H : Hashing) (digest : String) (size : ℤ) (bytes : Text) : Type 0 where
  pub same_digest : H.sum digest bytes ≡ digest
  pub same_size : SizeMatches size (length bytes)

-- A result of verify that is not an error of its own.
abbrev pub Passes : Option IoError → Type 0
Passes e = (e ≡ some eof) ⊎ (e ≡ none)

check_size-Matches :
    (size : ℤ) (current n : ℕ) (e : Option IoError)
    → SizeTracks size current n
    → Passes (check_size size current e)
    → SizeMatches size n
unfolding check_size
check_size-Matches (negsuc m) current n e t h = tt
check_size-Matches (pos m) current n e t h = ground arith

-- The reader is active (not a no-op over a reader with the same expectations), has digested what
-- it delivered, and has counted it.
pub record IsLive {R : Type 0} (digest : String) (size : ℤ) (seen : Text) (inner : Reader R)
    (v : Verifier) : Type 0 where
  pub expects_digest : v.expected_digest ≡ digest
  pub expects_size : v.expected_size ≡ size
  pub active : is_noop inner v ≡ false
  pub hashed : digested v ≡ seen
  pub counts : SizeTracks size v.current_size (length seen)

pub verify-Matches :
    (H : Hashing) (digest : String) (size : ℤ) {R : Type 0} (inner : Reader R) (v : Verifier)
    (seen : Text) (e : Option IoError)
    → IsLive digest size seen inner v
    → Passes (verify H v e)
    → Matches H digest size seen
verify-Matches H digest size inner v seen e t h = record {
  same_digest =
      unfold verify in
      ground (
        arith,
        t.hashed,
        t.expects_digest,
        eq_iff (H.sum v.expected_digest (digested v)) v.expected_digest,
      );
  same_size =
      check_size-Matches size v.current_size (length seen) e t.counts
        (rw (← t.expects_size) (unfold verify in ground arith));
}

-- What each plan may add to the count and to the bytes delivered.
abbrev pub PlanTracks : ℤ → ℕ → ℕ → Plan → Type 0
PlanTracks size current n (unchecked k) = (m : ℕ) → SizeTracks size current (n + m)
PlanTracks size current n (counted k) = (m : ℕ) → m ≤ k → SizeTracks size (current + m) (n + m)
PlanTracks size current n probe = (m : ℕ) → SizeTracks size (current + m) n
PlanTracks size current n stop = SizeTracks size current n

pub plan-PlanTracks :
    (size : ℤ) (k current n : ℕ)
    → SizeTracks size current n
    → PlanTracks size current n (plan size k current)
unfolding plan
plan-PlanTracks (negsuc x) k current n t = λ m. tt
plan-PlanTracks (pos x) k current n t = elim (Bool-cases (ltb current x)) [
  | inl more ↦ rw more (λ m h. ground arith)
  | inr full ↦ rw full (elim (Bool-cases (current == x)) [
    | inl edge ↦ rw edge (λ m. ground arith)
    | inr past ↦ rw past t
  ])
]

module _ (H : Hashing) {R : Type 0} (src : Source R) where
  pub expected_after :
      (k : ℕ) (r : Reader R) (v : Verifier) → is_noop (read H src k r).after v ≡ is_noop r v
  unfolding read
  expected_after k (raw r) v = refl
  expected_after k (verified inner w) v = ground arith

  -- The step that Read takes under each plan.
  abbrev pub perform : Plan → Reader R → Verifier → Step R
  perform (unchecked n) inner v = of_unchecked (read H src n inner) v
  perform (counted n) inner v = of_counted (read H src n inner) v
  perform probe inner v = of_probe (read H src 1 inner) v
  perform stop inner v = of_stop inner v

  pub read-perform :
      (k : ℕ) (inner : Reader R) (v : Verifier)
      → read H src k (verified inner v)
        ≡ outcome (finish H (perform (plan v.expected_size k v.current_size) inner v))
  unfolding read
  read-perform k inner v = ground arith

  finish-fits : (s : Step R) → length (finish H s).bytes ≤ length s.bytes
  unfolding finish
  finish-fits s = ground arith

  perform-fits :
      (k : ℕ) (inner : Reader R) (v : Verifier)
      → ((n : ℕ) → length (read H src n inner).bytes ≤ n)
      → (size : ℤ) → length (perform (plan size k v.current_size) inner v).bytes ≤ k
  unfolding plan
  perform-fits k inner v h (negsuc m) = h k
  perform-fits k inner v h (pos m) = ground (arith, h (min k (m - v.current_size)))

  -- A Read gives no more bytes than the buffer holds, whatever readers are stacked.
  pub read-fits : IsLawful src → (r : Reader R) (k : ℕ) → length (read H src k r).bytes ≤ k
  read-fits L (raw r) k = unfold read in L.fits k r
  read-fits L (verified inner v) k = rw (read-perform k inner v) (
      omega (
        arith,
        finish-fits (perform (plan v.expected_size k v.current_size) inner v),
        perform-fits k inner v (read-fits L inner) v.expected_size,
      ))
