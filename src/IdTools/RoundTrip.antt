-- ===== src/IdTools/RoundTrip.antt =====
-- pkg/idtools/idtools.go: ToHost and ToContainer undo each other.
use umoci.Base.{
  ℕ, ◌+◌, ◌%◌, ◌≤◌, ◌<◌, ◌≡◌, refl, ◌⊎◌, Option, none, some, List, [], ◌∷◌, map, All, arith,
}
use umoci.Base.Int.{ℤ, pos, to_u32, u32_mod}
use umoci.Base.Result.{ok, err}
use umoci.IdTools.Mapping.{
  LinuxIdMapping, unmapped, host_loop, container_loop, found_or_unmapped, to_host, to_container,
}

-- Both ranges of the mapping end before 2 ^ 32.
pub record Fits (m : LinuxIdMapping) : Type 0 where
  pub container_end : m.container_id + m.size < u32_mod
  pub host_end : m.host_id + m.size < u32_mod

-- The host ranges of two mappings do not meet.
abbrev pub HostApart : LinuxIdMapping → LinuxIdMapping → Type 0
HostApart m n = (m.host_id + m.size ≤ n.host_id) ⊎ (n.host_id + n.size ≤ m.host_id)

-- Mappings that fit, with host ranges that do not meet pairwise.
abbrev pub IsInjective : List LinuxIdMapping → Type 0
IsInjective [] = Unit {0}
IsInjective (m ∷ ms) = Fits m × All (HostApart m) ms × IsInjective ms

-- A host id that a later mapping gives does not lie in the range of `m`.
host_loop_outside :
    (id h : ℕ) (m : LinuxIdMapping) (ms : List LinuxIdMapping)
    → host_loop id ms ≡ some h
    → All (HostApart m) ms
    → IsInjective ms
    → (h < m.host_id) ⊎ (m.host_id + m.size ≤ h)
unfolding host_loop
host_loop_outside id h m [] e a v = cc
host_loop_outside id h m (n ∷ ms) e a v =
    ground (arith, v.0.container_end, v.0.host_end, host_loop_outside id h m ms)

container_loop-host_loop :
    (id h : ℕ) (ms : List LinuxIdMapping)
    → IsInjective ms
    → host_loop id ms ≡ some h
    → container_loop h ms ≡ some id
unfolding host_loop container_loop
container_loop-host_loop id h [] v e = cc
container_loop-host_loop id h (m ∷ ms) v e = ground (
  arith,
  v.0.container_end,
  v.0.host_end,
  host_loop_outside id h m ms,
  container_loop-host_loop id h ms,
)

host_loop-lt : (id h : ℕ) (ms : List LinuxIdMapping) → host_loop id ms ≡ some h → h < u32_mod
unfolding host_loop
host_loop-lt id h [] e = cc
host_loop-lt id h (m ∷ ms) e = ground (arith, host_loop-lt id h ms)

id_mod : (id : ℕ) → id < u32_mod → id % u32_mod ≡ id
id_mod id lt = omega arith

-- For mappings that fit in 32 bits and whose host ranges do not meet, the id that ToHost gives for
-- a container id below 2 ^ 32 is taken back to that container id by ToContainer.
pub to_container-to_host :
    (id : ℕ) (h : ℤ) (ms : List LinuxIdMapping)
    → id < u32_mod
    → IsInjective ms
    → to_host (pos id) (some ms) ≡ ok h
    → to_container h (some ms) ≡ ok (pos id)
unfolding to_host to_container
to_container-to_host id h ms lt v e = go (host_loop id ms) refl (rw (id_mod id lt) at e)
  where
    go :
        (o : Option ℕ)
        → host_loop id ms ≡ o
        → found_or_unmapped (pos id) o ≡ ok h
        → found_or_unmapped h (container_loop (to_u32 h) ms) ≡ ok (pos id)
    go none f g = cc
    go (some n) f g =
        ground (arith, id_mod n (host_loop-lt id n ms f), container_loop-host_loop id n ms v f)

-- Swapping the two sides of a mapping.
abbrev pub flip : LinuxIdMapping → LinuxIdMapping
flip m = record { container_id = m.host_id; host_id = m.container_id; size = m.size }

loop-flip : (id : ℕ) (ms : List LinuxIdMapping) → container_loop id ms ≡ host_loop id (map flip ms)
unfolding host_loop container_loop
loop-flip id [] = refl
loop-flip id (m ∷ ms) = rw (loop-flip id ms)

-- ToContainer is ToHost over the mappings with their sides swapped, for every id and every list of
-- mappings, wrapping sums and unmapped ids included.
pub to_container-flip :
    (id : ℤ) (ms : List LinuxIdMapping)
    → to_container id (some ms) ≡ to_host id (some (map flip ms))
unfolding to_host to_container
to_container-flip id ms = rw (loop-flip (to_u32 id) ms)

-- An id that lies in the container range of the mapping, sums taken in ℕ.
abbrev pub Covers : LinuxIdMapping → ℕ → Type 0
Covers m id = (m.container_id ≤ id) × (id < m.container_id + m.size)

loop-overflow :
    (id : ℕ) (m : LinuxIdMapping) → m.container_id + m.size ≡ u32_mod → host_loop id (m ∷ []) ≡ none
unfolding host_loop
loop-overflow id m e = ground arith

-- A mapping whose container range ends exactly at 2 ^ 32 maps no id at all, although the range
-- covers its first id: the end of the range wraps around to 0.
pub to_host_full_range :
    (id : ℤ) (m : LinuxIdMapping)
    → 0 < m.size
    → m.container_id + m.size ≡ u32_mod
    → Covers m m.container_id × (to_host id (some (m ∷ [])) ≡ err (unmapped id))
unfolding to_host
to_host_full_range id m p e = (omega arith, rw (loop-overflow (to_u32 id) m e))
