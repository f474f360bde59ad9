-- ===== src/IdTools/ParseLaws.antt =====
-- pkg/idtools/idtools.go: what ParseMapping reads is what the mapping says.
use umoci.Base.{
  ℕ, zero, suc, ◌+◌, ◌-◌, ◌*◌, ◌/◌, ◌%◌, ◌≤◌, ◌<◌, ◌≡◌, refl, ◌∙◌, ◌≢◌, inl, inr, [], ◌∷◌, ◌++◌,
  Text, All, arith, ltb, Bool-cases, if◌then◌else◌, All-append,
}
use umoci.Base.Int.{u32_mod}
use umoci.Base.Result.{ok, ◌>>=◌}
use umoci.IdTools.Mapping.{LinuxIdMapping}
use umoci.IdTools.Parse.{split, parse_digits, parse_uint32, parse_mapping}

abbrev IsDigit : ℕ → Type 0
IsDigit c = (b'0' ≤ c) × (c ≤ b'9')

-- The decimal digits of a number, with fuel above the number.
decimal_fuel : ℕ → ℕ → Text
decimal_fuel zero n = []
decimal_fuel (suc f) n =
    let more = decimal_fuel f (n / 10) ++ (n % 10 + b'0') ∷ [] in
    if ltb n 10 then (n + b'0') ∷ [] else more

pub decimal : ℕ → Text
unfolding decimal_fuel
decimal n = decimal_fuel (suc n) n

decimal_fuel-IsDigit : (f n : ℕ) → All IsDigit (decimal_fuel f n)
unfolding decimal_fuel
decimal_fuel-IsDigit zero n = tt
decimal_fuel-IsDigit (suc f) n = elim (Bool-cases (ltb n 10)) [
  | inl small ↦ rw small (ground arith)
  | inr large ↦ rw large (
      All-append IsDigit (decimal_fuel f (n / 10)) _ (decimal_fuel-IsDigit f (n / 10))
        (omega arith))
]

parse_digits-append :
    (n d : ℕ) (s : Text)
    → parse_digits n (s ++ d ∷ []) ≡ (parse_digits n s >>= λ v. parse_digits v (d ∷ []))
unfolding parse_digits
parse_digits-append n d [] = refl
parse_digits-append n d (c ∷ s) = ground (arith, parse_digits-append (n * 10 + (c - b'0')) d s)

parse_digits-decimal : (f n : ℕ) → n < f → n < u32_mod → parse_digits 0 (decimal_fuel f n) ≡ ok n
unfolding decimal_fuel parse_digits
parse_digits-decimal zero n h l = absurd (omega arith)
parse_digits-decimal (suc f) n h l = elim (Bool-cases (ltb n 10)) [
  | inl small ↦ rw small (ground arith)
  | inr large ↦ rw large (
      parse_digits-append 0 (n % 10 + b'0') (decimal_fuel f (n / 10))
      ∙ rw (parse_digits-decimal f (n / 10) (ground arith) (omega arith)) (ground arith))
]

parse_uint32-eq : (s : Text) {n : ℕ} → s ≢ [] → parse_digits 0 s ≡ ok n → parse_uint32 s ≡ ok n
unfolding parse_uint32
parse_uint32-eq [] h e = absurd (h refl)
parse_uint32-eq (c ∷ s) h e = e

append-ne-nil : (s t : Text) (c : ℕ) → s ++ c ∷ t ≢ []
append-ne-nil [] t c e = cc
append-ne-nil (x ∷ s) t c e = cc

decimal-ne-nil : (n : ℕ) → decimal n ≢ []
unfolding decimal
decimal-ne-nil n e = elim (Bool-cases (ltb n 10)) [
  | inl small ↦ ground arith
  | inr large ↦ ground (arith, append-ne-nil (decimal_fuel n (n / 10)) [] (n % 10 + b'0'))
]

-- Every uint32, written in decimal, is read back.
parse_uint32-decimal : (n : ℕ) → n < u32_mod → parse_uint32 (decimal n) ≡ ok n
parse_uint32-decimal n l =
    parse_uint32-eq (decimal n) (decimal-ne-nil n)
      (unfold decimal in parse_digits-decimal (suc n) n (omega arith) l)

split-append : (s t : Text) → All IsDigit s → split b':' (s ++ b':' ∷ t) ≡ s ∷ split b':' t
unfolding split
split-append [] t h = refl
split-append (c ∷ s) t h = ground (arith, split-append s t h.1)

split-last : (s : Text) → All IsDigit s → split b':' s ≡ s ∷ []
unfolding split
split-last [] h = refl
split-last (c ∷ s) h = ground (arith, split-last s h.1)

decimal-IsDigit : (n : ℕ) → All IsDigit (decimal n)
unfolding decimal
decimal-IsDigit n = decimal_fuel-IsDigit (suc n) n

-- "container:host:size"
abbrev pub print_mapping : LinuxIdMapping → Text
print_mapping m = decimal m.container_id ++ (b':' ∷ (decimal m.host_id ++ (b':' ∷ decimal m.size)))

split-print_mapping :
    (m : LinuxIdMapping)
    → split b':' (print_mapping m)
      ≡ decimal m.container_id ∷ decimal m.host_id ∷ decimal m.size ∷ []
split-print_mapping m = rw (
  split-append (decimal m.container_id) _ (decimal-IsDigit m.container_id),
  split-append (decimal m.host_id) _ (decimal-IsDigit m.host_id),
  split-last (decimal m.size) (decimal-IsDigit m.size),
)

pub record IsUint32 (m : LinuxIdMapping) : Type 0 where
  pub container_lt : m.container_id < u32_mod
  pub host_lt : m.host_id < u32_mod
  pub size_lt : m.size < u32_mod

-- A mapping whose fields are below 2 ^ 32, written as "container:host:size" in decimal, is parsed
-- to itself.
pub parse_mapping-print_mapping :
    (m : LinuxIdMapping) → IsUint32 m → parse_mapping (print_mapping m) ≡ ok m
unfolding parse_mapping
parse_mapping-print_mapping m v = rw (
  split-print_mapping m,
  parse_uint32-decimal m.size v.size_lt,
  parse_uint32-decimal m.container_id v.container_lt,
  parse_uint32-decimal m.host_id v.host_lt,
)
