-- ===== src/Hardening/Stream.antt =====
-- pkg/hardening/verified_reader.go: whole streams, read by read.
use mathlib.Core.List.{append-nil, append_assoc}
use umoci.Base.{
  ℕ, ◌≤◌, ◌≡◌, refl, true, false, Option, none, some, String, List, [], ◌∷◌, ◌++◌, Text, length,
  length-append, arith,
}
use umoci.Base.Int.{ℤ, pos, negsuc}
use umoci.Hardening.Verified.{
  IsLawful, SizeTracks, Matches, Passes, IsLive, verify-Matches, PlanTracks, plan-PlanTracks,
  expected_after, perform, read-perform, read-fits,
}
use umoci.Hardening.Reader.{
  IoError, eof, Hashing, Verifier, Reader, raw, verified, Outcome, Source, is_noop, digested, Plan,
  unchecked, counted, probe, stop, plan, verify, Step, finish, at_eof, count_bytes, of_unchecked,
  of_counted, of_probe, of_stop, outcome, read,
}

noop_digest :
    {R : Type 0} (r : Reader R) (v : Verifier) (b : Text)
    → is_noop r (record v { digester = some b }) ≡ is_noop r v
noop_digest (raw r) v b = refl
noop_digest (verified inner w) v b = refl

noop_count :
    {R : Type 0} (r : Reader R) (v : Verifier) (n : ℕ) → is_noop r (count_bytes v n) ≡ is_noop r v
noop_count (raw r) v n = refl
noop_count (verified inner w) v n = refl

-- The step of a Read once the bytes are digested.
abbrev digest_after : {R : Type 0} → Hashing → Step R → Verifier
digest_after H s = record s.verifier { digester = some (digested s.verifier ++ s.bytes) }

finish_lem :
    {R : Type 0} (H : Hashing) (s : Step R)
    → is_noop s.inner s.verifier ≡ false
    → H.available s.verifier.expected_digest ≡ true
    → finish H s ≡ record s {
      error = at_eof s.error (verify H (digest_after H s) s.error);
      verifier = digest_after H s;
    }
unfolding finish
finish_lem H s a b = ground arith

at_eof-Passes : (e c : Option IoError) → at_eof e c ≡ some eof → Passes c
at_eof-Passes e c h = ground arith

-- What a step that keeps the reader live leaves, and what its end of stream shows.
pub record Keeps (H : Hashing) {R : Type 0} (digest : String) (size : ℤ) (seen : Text) (s : Step R)
    : Type 0 where
  pub live : IsLive digest size (seen ++ s.bytes) s.inner s.verifier
  pub at_end : s.error ≡ some eof → Matches H digest size (seen ++ s.bytes)

module _ (H : Hashing) {R : Type 0} (src : Source R) (digest : String) (size : ℤ)
    (ready : H.available digest ≡ true) where
  finish-Keeps :
      (seen : Text) (s : Step R)
      → is_noop s.inner s.verifier ≡ false
      → s.verifier.expected_digest ≡ digest
      → s.verifier.expected_size ≡ size
      → digested s.verifier ≡ seen
      → SizeTracks size s.verifier.current_size (length (seen ++ s.bytes))
      → Keeps H digest size seen (finish H s)
  finish-Keeps seen s a d z h c = rw (finish_lem H s a (rw d ready)) (record {
    live = after;
    at_end = λ e.
        verify-Matches H digest size s.inner (digest_after H s) (seen ++ s.bytes) s.error after
          (at_eof-Passes s.error _ e);
  })
    where
      after : IsLive digest size (seen ++ s.bytes) s.inner (digest_after H s)
      after = record {
        expects_digest = d;
        expects_size = z;
        active = rw (noop_digest s.inner s.verifier (digested s.verifier ++ s.bytes)) a;
        hashed = rw h;
        counts = c;
      }

  perform-Keeps :
      IsLawful src
      → (seen : Text) (inner : Reader R) (v : Verifier) (p : Plan) → IsLive digest size seen inner v
      → PlanTracks size v.current_size (length seen) p
      → Keeps H digest size seen (finish H (perform H src p inner v))
  perform-Keeps L seen inner v (unchecked k) l t =
      finish-Keeps seen (of_unchecked (read H src k inner) v) (rw (expected_after H src) l.active)
        l.expects_digest l.expects_size l.hashed
        (rw length-append (t (length (read H src k inner).bytes)))
  perform-Keeps L seen inner v (counted k) l t =
      finish-Keeps seen (of_counted (read H src k inner) v)
        (rw (expected_after H src, noop_count inner v (length (read H src k inner).bytes)) l.active)
        l.expects_digest l.expects_size l.hashed
        (rw length-append (t (length (read H src k inner).bytes) (read-fits H src L inner k)))
  perform-Keeps L seen inner v probe l t =
      finish-Keeps seen (of_probe (read H src 1 inner) v)
        (rw (expected_after H src, noop_count inner v (length (read H src 1 inner).bytes)) l.active)
        l.expects_digest l.expects_size l.hashed
        (rw append-nil (t (length (read H src 1 inner).bytes)))
  perform-Keeps L seen inner v stop l t =
      finish-Keeps seen (of_stop inner v) l.active l.expects_digest l.expects_size l.hashed
        (rw append-nil t)

  plan_at :
      (z : ℤ) (k current n : ℕ)
      → z ≡ size
      → SizeTracks size current n
      → PlanTracks size current n (plan z k current)
  plan_at z k current n e t = rw e (plan-PlanTracks size k current n t)

  -- A Read of a live reader keeps it live.
  read-Keeps :
      IsLawful src
      → (seen : Text) (inner : Reader R) (v : Verifier) (k : ℕ) → IsLive digest size seen inner v
      → Keeps H digest size seen
          (finish H (perform H src (plan v.expected_size k v.current_size) inner v))
  read-Keeps L seen inner v k l =
      perform-Keeps L seen inner v (plan v.expected_size k v.current_size) l
        (plan_at v.expected_size k v.current_size (length seen) l.expects_size l.counts)

-- What is read after a Read with the given error.
abbrev after_read :
    {R : Type 0} → Option IoError → Outcome (Reader R) → Outcome (Reader R) → Outcome (Reader R)
after_read (some e) o rest = o
after_read none o rest = record rest { bytes = o.bytes ++ rest.bytes }

-- A caller that reads with buffers of the given lengths, up to the first error.
unfoldable pub read_all : {R : Type 0} → Hashing → Source R → List ℕ → Reader R → Outcome (Reader R)
read_all H src [] r = record { bytes = []; error = none; after = r }
read_all H src (k ∷ ks) r =
    let o = read H src k r in let rest = read_all H src ks o.after in after_read o.error o rest

-- The fields of a VerifiedReadCloser that nothing was read from.
abbrev pub new_verifier : String → ℤ → Verifier
new_verifier digest size = record {
  expected_digest = digest;
  expected_size = size;
  digester = none;
  current_size = 0;
}

-- Not more bytes than the expected size, if there is one.
abbrev pub SizeBounds : ℤ → ℕ → Type 0
SizeBounds (negsuc _) n = Unit {0}
SizeBounds (pos size) n = n ≤ size

SizeTracks-SizeBounds : (size : ℤ) (c n : ℕ) → SizeTracks size c n → SizeBounds size n
SizeTracks-SizeBounds (negsuc _) c n t = tt
SizeTracks-SizeBounds (pos size) c n t = t.0

module _ (H : Hashing) {R : Type 0} (src : Source R) (digest : String) (size : ℤ)
    (ready : H.available digest ≡ true) (L : IsLawful src) where
  abbrev StreamOk : Text → Outcome (Reader R) → Type 0
  StreamOk seen o =
      SizeBounds size (length (seen ++ o.bytes))
      × (o.error ≡ some eof → Matches H digest size (seen ++ o.bytes))

  after_read-StreamOk :
      (e : Option IoError) (seen : Text) (o rest : Outcome (Reader R))
      → o.error ≡ e
      → StreamOk seen o
      → StreamOk (seen ++ o.bytes) rest
      → StreamOk seen (after_read e o rest)
  after_read-StreamOk (some e) seen o rest h a b = a
  after_read-StreamOk none seen o rest h a b = rw (← append_assoc seen o.bytes rest.bytes) b

  read_all-StreamOk :
      (ks : List ℕ) (seen : Text) (inner : Reader R) (v : Verifier)
      → IsLive digest size seen inner v
      → StreamOk seen (read_all H src ks (verified inner v))
  unfolding read_all
  read_all-StreamOk [] seen inner v l =
      (rw append-nil (SizeTracks-SizeBounds size v.current_size (length seen) l.counts), λ e. cc)
  read_all-StreamOk (k ∷ ks) seen inner v l = rw (read-perform H src k inner v) (
      go (λ t j w m. read_all-StreamOk ks t j w m)
        (finish H (perform H src (plan v.expected_size k v.current_size) inner v))
        (read-Keeps H src digest size ready L seen inner v k l))
    where
      go :
          ((t : Text) (j : Reader R) (w : Verifier)
            → IsLive digest size t j w
            → StreamOk t (read_all H src ks (verified j w)))
          → (s : Step R) → Keeps H digest size seen s
          → StreamOk seen
              (after_read s.error (outcome s) (read_all H src ks (verified s.inner s.verifier)))
      go rest s kept =
          after_read-StreamOk s.error seen (outcome s) _ refl
            (SizeTracks-SizeBounds size s.verifier.current_size _ kept.live.counts, kept.at_end)
            (rest (seen ++ s.bytes) s.inner s.verifier kept.live)

  IsLive-new :
      (inner : Reader R)
      → is_noop inner (new_verifier digest size) ≡ false
      → IsLive digest size [] inner (new_verifier digest size)
  IsLive-new inner a = record {
    expects_digest = refl;
    expects_size = refl;
    active = a;
    hashed = refl;
    counts = start size;
  }
    where
      start : (z : ℤ) → SizeTracks z 0 0
      start (negsuc n) = tt
      start (pos n) = omega arith

  -- Of a new reader that is no no-op, over any reader below that keeps to the contract of io.Reader
  -- and with an available hash algorithm: whatever the buffers, if reading comes to the end of the
  -- stream with no other error, then the bytes delivered have the expected digest, and the expected
  -- size if one is set.
  pub read_all-Matches :
      (ks : List ℕ) (inner : Reader R)
      → is_noop inner (new_verifier digest size) ≡ false
      → (read_all H src ks (verified inner (new_verifier digest size))).error ≡ some eof
      → Matches H digest size (read_all H src ks (verified inner (new_verifier digest size))).bytes
  read_all-Matches ks inner a =
      (read_all-StreamOk ks [] inner (new_verifier digest size) (IsLive-new inner a)).1

  -- Under the same conditions no more bytes are delivered than the expected size, if one is set,
  -- whatever error ends the stream.
  pub read_all-SizeBounds :
      (ks : List ℕ) (inner : Reader R)
      → is_noop inner (new_verifier digest size) ≡ false
      → SizeBounds size
          (length (read_all H src ks (verified inner (new_verifier digest size))).bytes)
  read_all-SizeBounds ks inner a =
      (read_all-StreamOk ks [] inner (new_verifier digest size) (IsLive-new inner a)).0
