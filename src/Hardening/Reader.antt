-- ===== src/Hardening/Reader.antt =====
-- pkg/hardening/verified_reader.go: VerifiedReadCloser, with the copy loop of pkg/system/copy.go
-- that Close runs. A process exit (log.Fatalf) is the error `fatal`.
use mathlib.Core.Option
use umoci.Base.{
  ℕ, zero, suc, ◌+◌, ◌-◌, Bool, true, false, ◌&&◌, Option, none, some, String, [], ◌++◌, Text,
  length, ltb, ◌==◌, str_eq, if◌then◌else◌,
}
use Prim.Native.Nat.{min}
use umoci.Base.Int.{ℤ, pos, negsuc}

pub data IoError : Type 0 where
  eof interrupted failed digest_mismatch short_stream extra_bytes fatal : IoError

-- The hash algorithms of go-digest. `sum d b` is the digest of the bytes `b` under the algorithm
-- that the digest `d` names.
pub record Hashing : Type 0 where
  pub available : String → Bool
  pub sum : String → Text → String

-- The fields of a VerifiedReadCloser but for the reader below it. The digester is known by the
-- bytes written to it, and is nil before the first use.
pub record Verifier : Type 0 where
  pub expected_digest : String
  pub expected_size : ℤ
  pub digester : Option Text
  pub current_size : ℕ

-- An io.ReadCloser: one from outside the package, or a VerifiedReadCloser.
pub data Reader (R : Type 0) : Type 0 where
  raw : R → Reader R
  verified : Reader R → Verifier → Reader R

-- What Read returns: the bytes put into the buffer, the error, and the reader as it is then.
pub record Outcome (S : Type 0) : Type 0 where
  pub bytes : Text
  pub error : Option IoError
  pub after : S

-- The readers from outside: Read with a buffer of the given length, and Close.
pub record Source (R : Type 0) : Type 0 where
  pub read : ℕ → R → Outcome R
  pub close : R → Option IoError

abbrev pub int_eq : ℤ → ℤ → Bool
int_eq (pos m) (pos n) = m == n
int_eq (negsuc m) (negsuc n) = m == n
int_eq _ _ = false

abbrev pub is_noop : {R : Type 0} → Reader R → Verifier → Bool
is_noop (raw r) v = false
is_noop (verified inner w) v =
    str_eq w.expected_digest v.expected_digest && int_eq w.expected_size v.expected_size

abbrev pub digested : Verifier → Text
digested v = elim v.digester [ none ↦ [] | some b ↦ b ]

-- How Read goes to the reader below: with the size check off, for at most what is left, for one
-- byte to see whether the stream goes on, or not at all.
pub data Plan : Type 0 where
  unchecked counted : ℕ → Plan
  probe stop : Plan

-- The switch of Read on the expected size, for a buffer of `k` bytes.
unfoldable pub plan : ℤ → ℕ → ℕ → Plan
plan (negsuc _) k current = unchecked k
plan (pos size) k current =
    if ltb current size
    then counted (min k (size - current))
    else if current == size
    then probe
    else stop

-- The size check of verify.
unfoldable pub check_size : ℤ → ℕ → Option IoError → Option IoError
check_size (negsuc _) current nil_err = nil_err
check_size (pos size) current nil_err =
    if ltb current size
    then some short_stream
    else if ltb size current
    then some extra_bytes
    else nil_err

-- verify
unfoldable pub verify : Hashing → Verifier → Option IoError → Option IoError
unfolding check_size
verify H v nil_err =
    if str_eq (H.sum v.expected_digest (digested v)) v.expected_digest
    then check_size v.expected_size v.current_size nil_err
    else some digest_mismatch

-- A Read under way: what the caller gets, the reader below, and the fields.
pub record Step (R : Type 0) : Type 0 where
  pub bytes : Text
  pub error : Option IoError
  pub inner : Reader R
  pub verifier : Verifier

abbrev pub at_eof : Option IoError → Option IoError → Option IoError
at_eof (some eof) checked = checked
at_eof other checked = other

-- init, the write to the digester, and the check at the end of the stream.
unfoldable pub digest_step : {R : Type 0} → Hashing → Step R → Step R
unfolding verify
digest_step H s =
    let v = record s.verifier { digester = some (digested s.verifier ++ s.bytes) } in
    elim s.verifier.digester [
      | some _ ↦ record s { error = at_eof s.error (verify H v s.error); verifier = v }
      | none ↦
          if H.available s.verifier.expected_digest
          then record s { error = at_eof s.error (verify H v s.error); verifier = v }
          else record s { bytes = []; error = some fatal }
    ]

unfoldable pub finish : {R : Type 0} → Hashing → Step R → Step R
unfolding digest_step
finish H s = if is_noop s.inner s.verifier then s else digest_step H s

abbrev pub count_bytes : Verifier → ℕ → Verifier
count_bytes v n = record v { current_size = v.current_size + n }

-- The step of each plan from what the reader below gave.
abbrev pub of_unchecked : {R : Type 0} → Outcome (Reader R) → Verifier → Step R
of_unchecked o v = record { bytes = o.bytes; error = o.error; inner = o.after; verifier = v }

abbrev pub of_counted : {R : Type 0} → Outcome (Reader R) → Verifier → Step R
of_counted o v = record {
  bytes = o.bytes;
  error = o.error;
  inner = o.after;
  verifier = count_bytes v (length o.bytes);
}

abbrev pub of_probe : {R : Type 0} → Outcome (Reader R) → Verifier → Step R
of_probe o v = record {
  bytes = [];
  error = some eof;
  inner = o.after;
  verifier = count_bytes v (length o.bytes);
}

abbrev pub of_stop : {R : Type 0} → Reader R → Verifier → Step R
of_stop inner v = record { bytes = []; error = some eof; inner = inner; verifier = v }

abbrev pub outcome : {R : Type 0} → Step R → Outcome (Reader R)
outcome s = record { bytes = s.bytes; error = s.error; after = verified s.inner s.verifier }

-- Whether init finds or can make the digester.
abbrev pub is_ready : Hashing → Verifier → Bool
is_ready H v = elim v.digester [ some _ ↦ true | none ↦ H.available v.expected_digest ]

-- What Close does once the reader below is closed.
unfoldable pub close_verified :
    {R : Type 0} → Hashing → Verifier → Option IoError × Reader R → Option IoError × Reader R
unfolding verify
close_verified H w (some e, below) = (some e, verified below w)
close_verified H w (none, below) =
    if is_noop below w
    then (none, verified below w)
    else if is_ready H w
    then (verify H w none, verified below w)
    else (some fatal, verified below w)

-- What Close does once the stream is drained; `below` closes the reader below.
unfoldable pub close_drained :
    {R : Type 0}
    → Hashing
    → (Reader R → Option (Option IoError × Reader R))
    → Option IoError
    → Reader R
    → Option (Option IoError × Reader R)
unfolding close_verified
close_drained H below (some e) r = some (some e, r)
close_drained H below none (raw r) = below (raw r)
close_drained H below none (verified inner w) = Option.map (close_verified H w) (below inner)

module _ (H : Hashing) {R : Type 0} (src : Source R) where
  unfoldable pub read : ℕ → Reader R → Outcome (Reader R)
  unfolding finish plan
  read k (raw r) =
      let o = src.read k r in record { bytes = o.bytes; error = o.error; after = raw o.after }
  read k (verified inner v) = elim (plan v.expected_size k v.current_size) [
    | unchecked n ↦ outcome (finish H (of_unchecked (read n inner) v))
    | counted n ↦ outcome (finish H (of_counted (read n inner) v))
    | probe ↦ outcome (finish H (of_probe (read 1 inner) v))
    | stop ↦ outcome (finish H (of_stop inner v))
  ]

  -- system.Copy to ioutil.Discard: reads of 8192 bytes up to the end of the stream, again after
  -- an interrupt. `none` is a lack of fuel.
  unfoldable pub discard : ℕ → ℕ → Reader R → Option (Outcome (Reader R) × ℕ)
  unfolding read
  discard zero n r = none
  discard (suc fuel) n r =
      let o = read 8192 r in
      let total = n + length o.bytes in
      let more = discard fuel total o.after in
      elim o.error [
        | none ↦ more
        | some eof ↦ some (record o { error = none }, total)
        | some interrupted ↦ more
        | some e ↦ some (record o { error = some e }, total)
      ]

  -- Close: what is left is read first. One unit of fuel for each reader below, the rest for reads.
  unfoldable pub close : ℕ → Reader R → Option (Option IoError × Reader R)
  unfolding discard close_drained
  close zero r = none
  close (suc fuel) (raw r) = some (src.close r, raw r)
  close (suc fuel) (verified inner v) = elim (discard fuel 0 (verified inner v)) [
    | none ↦ none
    | some (o, n) ↦ close_drained H (λ r. close fuel r) o.error o.after
  ]
