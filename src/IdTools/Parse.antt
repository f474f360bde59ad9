-- ===== src/IdTools/Parse.antt =====
-- pkg/idtools/idtools.go: ParseMapping, with the functions of strings and strconv that it calls.
use umoci.Base.{
  ℕ, ◌+◌, ◌-◌, ◌*◌, Bool, ◌&&◌, List, [], ◌∷◌, Text, ltb, leb, ◌==◌, if◌then◌else◌, length,
}
use umoci.Base.Int.{u32_mod}
use umoci.Base.Result.{Result, ok, err, wrap, ◌>>=◌}
use umoci.IdTools.Mapping.{LinuxIdMapping}

-- strconv.ErrSyntax and strconv.ErrRange
pub data NumError : Type 0 where
  syntax range : NumError

pub data MappingError : Type 0 where
  invalid_fields : ℕ → MappingError
  invalid_size invalid_container_id invalid_host_id : NumError → MappingError

-- strings.Split(s, sep) for a separator of one byte.
cons_first : ℕ → List Text → List Text
cons_first c [] = (c ∷ []) ∷ []
cons_first c (w ∷ ws) = (c ∷ w) ∷ ws

unfoldable pub split : ℕ → Text → List Text
unfolding cons_first
split sep [] = [] ∷ []
split sep (c ∷ s) = let rest = split sep s in if c == sep then [] ∷ rest else cons_first c rest

is_digit : ℕ → Bool
is_digit c = leb b'0' c && leb c b'9'

-- The loop of strconv.ParseUint(s, 10, 32): `n` is the value of the digits read.
unfoldable pub parse_digits : ℕ → Text → Result NumError ℕ
unfolding is_digit
parse_digits n [] = ok n
parse_digits n (c ∷ s) =
    let n1 = n * 10 + (c - b'0') in
    let rest = parse_digits n1 s in
    if is_digit c then (if ltb n1 u32_mod then rest else err range) else err syntax

-- parseUint32
unfoldable pub parse_uint32 : Text → Result NumError ℕ
unfolding parse_digits
parse_uint32 [] = err syntax
parse_uint32 (c ∷ s) = parse_digits 0 (c ∷ s)

-- What ParseMapping does once the size is known.
parse_ids : Text → Text → ℕ → Result MappingError LinuxIdMapping
unfolding parse_uint32
parse_ids cont host size = do
  cont_id ← wrap invalid_container_id (parse_uint32 cont)
  host_id ← wrap invalid_host_id (parse_uint32 host)
  ok (record { container_id = cont_id; host_id = host_id; size = size })

mapping_of_parts : List Text → Result MappingError LinuxIdMapping
unfolding parse_ids
mapping_of_parts (cont ∷ host ∷ size ∷ []) = do
  n ← wrap invalid_size (parse_uint32 size)
  parse_ids cont host n
mapping_of_parts (cont ∷ host ∷ []) = parse_ids cont host 1
mapping_of_parts parts = err (invalid_fields (length parts))

unfoldable pub parse_mapping : Text → Result MappingError LinuxIdMapping
unfolding mapping_of_parts split
parse_mapping spec = mapping_of_parts (split b':' spec)
