-- ===== src/Tests/Streams.antt =====
-- pkg/hardening: a stream of three bytes, read with small buffers.
use umoci.Base.{
  ℕ, zero, suc, ◌≡◌, ◌≤◌, refl, true, Option, none, some, List, [], ◌∷◌, codes, Text, text_eq,
  length, arith, if◌then◌else◌,
}
use umoci.Base.Lists.{take, drop}
use umoci.Base.Int.{pos}
use umoci.Hardening.Reader.{Hashing, Source, Reader, raw, verified, eof, IoError, read}
use umoci.Hardening.Verified.{IsLawful, Matches, read-fits}
use umoci.Hardening.Stream.{
  read_all, new_verifier, SizeBounds, read_all-Matches, read_all-SizeBounds,
}

abbrev table : Hashing
table = record {
  available = λ d. true;
  sum = λ d b. if text_eq b (codes "abc") then "toy:abc" else "toy:other";
}

-- The end of the stream is told with its last bytes.
abbrev end_after : Text → Option IoError
end_after [] = some eof
end_after (c ∷ s) = none

abbrev memory : Source Text
memory = record {
  read = λ k s. record { bytes = take k s; error = end_after (drop k s); after = drop k s };
  close = λ s. none;
}

length-take : (k : ℕ) (s : Text) → length (take k s) ≤ k
length-take zero s = omega arith
length-take (suc k) [] = omega arith
length-take (suc k) (c ∷ s) = omega (arith, length-take k s)

memory-IsLawful : IsLawful memory
memory-IsLawful = record { fits = length-take }

abbrev stream : Reader Text
stream = raw (codes "abc")

abbrev buffers : List ℕ
buffers = 2 ∷ 2 ∷ 2 ∷ []

comes_to_end :
    (read_all table memory buffers (verified stream (new_verifier "toy:abc" (pos 3)))).error
    ≡ some eof
unfolding read_all text_eq read
comes_to_end = refl

read_all-Matches_example :
    Matches table "toy:abc"
      (pos 3)
      (read_all table memory buffers (verified stream (new_verifier "toy:abc" (pos 3)))).bytes
read_all-Matches_example =
    read_all-Matches table memory "toy:abc" (pos 3) refl memory-IsLawful buffers stream refl
      comes_to_end

read_all-SizeBounds_example :
    SizeBounds (pos 2) (
      length
        (read_all table memory buffers (verified stream (new_verifier "toy:ab" (pos 2)))).bytes)
read_all-SizeBounds_example =
    read_all-SizeBounds table memory "toy:ab" (pos 2) refl memory-IsLawful buffers stream refl

read-fits_example :
    length (read table memory 2 (verified stream (new_verifier "toy:abc" (pos 3)))).bytes ≤ 2
read-fits_example =
    read-fits table memory memory-IsLawful (verified stream (new_verifier "toy:abc" (pos 3))) 2
