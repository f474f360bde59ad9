-- ===== src/Tests/Ids.antt =====
-- pkg/idtools: a run of the id mappings.
use umoci.Base.{◌≡◌, refl, inl, some, List, [], ◌∷◌, map, arith}
use umoci.Base.Int.{pos}
use umoci.Base.Result.{ok, err}
use umoci.IdTools.Mapping.{LinuxIdMapping, unmapped, to_host, to_container}
use umoci.IdTools.RoundTrip.{
  IsInjective, to_container-to_host, flip, to_container-flip, Covers, to_host_full_range,
}
use umoci.IdTools.Parse.{parse_mapping}
use umoci.IdTools.ParseLaws.{print_mapping, parse_mapping-print_mapping}

abbrev low : LinuxIdMapping
low = record { container_id = 0; host_id = 1000; size = 10 }

abbrev high : LinuxIdMapping
high = record { container_id = 10; host_id = 100000; size = 65536 }

abbrev full : LinuxIdMapping
full = record { container_id = 4294967286; host_id = 0; size = 10 }

abbrev both : List LinuxIdMapping
both = low ∷ high ∷ []

both-IsInjective : IsInjective both
both-IsInjective = (
  (record { container_end = omega arith; host_end = omega arith }),
  (inl (omega arith), tt),
  ((record { container_end = omega arith; host_end = omega arith }), tt, tt),
)

mapped : to_host (pos 13) (some both) ≡ ok (pos 100003)
unfolding to_host
mapped = refl

to_container-to_host_example : to_container (pos 100003) (some both) ≡ ok (pos 13)
to_container-to_host_example =
    to_container-to_host 13 (pos 100003) both (omega arith) both-IsInjective mapped

to_container-flip_example :
    to_container (pos 1003) (some both) ≡ to_host (pos 1003) (some (map flip both))
to_container-flip_example = to_container-flip (pos 1003) both

to_host_full_range_example :
    Covers full full.container_id
    × (to_host (pos 4294967290) (some (full ∷ [])) ≡ err (unmapped (pos 4294967290)))
to_host_full_range_example = to_host_full_range (pos 4294967290) full (omega arith) refl

parse_mapping-print_mapping_example : parse_mapping (print_mapping high) ≡ ok high
parse_mapping-print_mapping_example =
    parse_mapping-print_mapping high
      (record { container_lt = omega arith; host_lt = omega arith; size_lt = omega arith })
