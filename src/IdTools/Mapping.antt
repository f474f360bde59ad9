-- ===== src/IdTools/Mapping.antt =====
-- pkg/idtools/idtools.go: ToHost and ToContainer. Sums of uint32 wrap around, as in Go.
use umoci.Base.{ℕ, ◌+◌, ◌-◌, ◌%◌, ◌&&◌, Option, none, some, List, [], ◌∷◌, ltb, leb, if◌then◌else◌}
use umoci.Base.Int.{ℤ, pos, to_u32, u32_mod}
use umoci.Base.Result.{Result, ok, err}

-- rspec.LinuxIDMapping; each field is a uint32.
pub record LinuxIdMapping : Type 0 where
  pub container_id : ℕ
  pub host_id : ℕ
  pub size : ℕ

-- An id that no mapping covers.
pub data Unmapped : Type 0 where
  unmapped : ℤ → Unmapped

-- The loop of ToHost over the mappings.
unfoldable pub host_loop : ℕ → List LinuxIdMapping → Option ℕ
host_loop id [] = none
host_loop id (m ∷ ms) =
    if leb m.container_id id && ltb id ((m.container_id + m.size) % u32_mod)
    then some ((m.host_id + (id - m.container_id)) % u32_mod)
    else host_loop id ms

-- The loop of ToContainer over the mappings.
unfoldable pub container_loop : ℕ → List LinuxIdMapping → Option ℕ
container_loop id [] = none
container_loop id (m ∷ ms) =
    if leb m.host_id id && ltb id ((m.host_id + m.size) % u32_mod)
    then some ((m.container_id + (id - m.host_id)) % u32_mod)
    else container_loop id ms

abbrev pub found_or_unmapped : ℤ → Option ℕ → Result Unmapped ℤ
found_or_unmapped id none = err (unmapped id)
found_or_unmapped id (some n) = ok (pos n)

-- A nil slice is `none`: no mapping was given.
unfoldable pub to_host : ℤ → Option (List LinuxIdMapping) → Result Unmapped ℤ
unfolding host_loop
to_host cont_id none = ok cont_id
to_host cont_id (some id_map) = found_or_unmapped cont_id (host_loop (to_u32 cont_id) id_map)

unfoldable pub to_container : ℤ → Option (List LinuxIdMapping) → Result Unmapped ℤ
unfolding container_loop
to_container host_id none = ok host_id
to_container host_id (some id_map) =
    found_or_unmapped host_id (container_loop (to_u32 host_id) id_map)
