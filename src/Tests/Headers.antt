-- ===== src/Tests/Headers.antt =====
-- oci/layer: a header through unmapHeader and mapHeader.
use umoci.Base.{◌≡◌, refl, sym, ap, true, false, none, some, List, [], ◌∷◌, codes, Text, arith}
use umoci.Base.Dict.{lookup, insert, erase}
use umoci.Base.Errors.{GoError, sentinel}
use umoci.Base.Int.{pos}
use umoci.Base.Result.{Result, ok, err, ◌>>=◌}
use umoci.IdTools.Mapping.{LinuxIdMapping, to_host}
use umoci.IdTools.RoundTrip.{IsInjective}
use umoci.Layer.Header.{Header, MapOptions, Proto, Resource, keyname, map_header, unmap_header}
use umoci.Layer.HeaderLaws.{
  IsLawful, map_header-unmap_header_root, map_header-unmap_header_rootless,
}

abbrev decode_pair : Text → Result GoError Resource
decode_pair (u ∷ g ∷ []) = ok (record { uid = u; gid = g })
decode_pair _ = err (sentinel "not a pair")

abbrev pub pairs : Proto
pairs = record { marshal = λ r. ok (r.uid ∷ r.gid ∷ []); unmarshal = decode_pair }

pairs-IsLawful : IsLawful pairs
pairs-IsLawful = record {
  unmarshal-marshal = λ r e. ap (λ (q : Result GoError Text). q >>= decode_pair) (sym e);
}

abbrev entry : Header
entry = record { name = codes "etc/passwd"; uid = pos 3; gid = pos 0; xattrs = some [] }

abbrev pub mappings : List LinuxIdMapping
mappings = record { container_id = 0; host_id = 1000; size = 10 } ∷ []

mappings-IsInjective : IsInjective mappings
mappings-IsInjective = (record { container_end = omega arith; host_end = omega arith }, tt, tt)

abbrev root_options : MapOptions
root_options = record {
  uid_mappings = some mappings;
  gid_mappings = some mappings;
  rootless = false;
}

abbrev rootless_options : MapOptions
rootless_options = record { uid_mappings = some mappings; gid_mappings = none; rootless = true }

abbrev shifted : Header
shifted = record entry { uid = pos 1003; gid = pos 1000 }

abbrev hidden : Header
hidden = record entry {
  uid = pos 1000;
  gid = pos 0;
  xattrs = some ((keyname, 3 ∷ 4294967295 ∷ []) ∷ []);
}

to_shifted : unmap_header pairs root_options entry ≡ ok shifted
unfolding unmap_header to_host
to_shifted = refl

to_hidden : unmap_header pairs rootless_options entry ≡ ok hidden
unfolding unmap_header to_host insert erase
to_hidden = refl

map_header-unmap_header_root_example : map_header pairs root_options shifted ≡ ok entry
map_header-unmap_header_root_example =
    map_header-unmap_header_root pairs root_options entry shifted 3 0 refl refl refl (omega arith)
      (omega arith) mappings-IsInjective mappings-IsInjective to_shifted

abbrev bare : Header
bare = record entry { xattrs = none }

bare_to_hidden : unmap_header pairs rootless_options bare ≡ ok hidden
unfolding unmap_header to_host insert erase
bare_to_hidden = refl

unmarked : lookup {V = Text} keyname [] ≡ none
unfolding lookup
unmarked = refl

-- A header with a nil map.
map_header-unmap_header_rootless_example : map_header pairs rootless_options hidden ≡ ok entry
map_header-unmap_header_rootless_example =
    map_header-unmap_header_rootless pairs pairs-IsLawful rootless_options bare hidden 3 0 refl refl
      refl (omega arith) (omega arith) unmarked bare_to_hidden
