-- ===== src/Layer/Header.antt =====
-- oci/layer/utils.go: mapHeader and unmapHeader, which translate the owner of a tar entry.
-- The protobuf encoding of rootlesscontainers is a parameter.
use umoci.Base.{ℕ, Bool, ◌&&◌, ◌==◌, String, Option, none, some, List, [], Text, if◌then◌else◌}
use umoci.Base.Dict.{Dict, lookup, insert, erase}
use umoci.Base.Errors.{GoError}
use umoci.Base.Int.{ℤ, pos, negsuc, to_u32}
use umoci.Base.Result.{Result, ok, wrap, ◌>>=◌}
use umoci.IdTools.Mapping.{LinuxIdMapping, Unmapped, to_host, to_container}

-- MapOptions
pub record MapOptions : Type 0 where
  pub uid_mappings : Option (List LinuxIdMapping)
  pub gid_mappings : Option (List LinuxIdMapping)
  pub rootless : Bool

-- The fields of a tar.Header that the functions use; a nil map is `none`.
pub record Header : Type 0 where
  pub name : Text
  pub uid : ℤ
  pub gid : ℤ
  pub xattrs : Option (Dict Text)

-- rootlesscontainers.Resource; both fields are uint32.
pub record Resource : Type 0 where
  pub uid : ℕ
  pub gid : ℕ

-- rootlesscontainers.Keyname
abbrev pub keyname : String
keyname = "user.rootlesscontainers"

-- rootlesscontainers.NoopID
abbrev pub noop_id : ℕ
noop_id = 4294967295

-- proto.Marshal and proto.Unmarshal of a Resource.
pub record Proto : Type 0 where
  pub marshal : Resource → Result GoError Text
  pub unmarshal : Text → Result GoError Resource

pub data HeaderError : Type 0 where
  map_uid map_gid : Unmapped → HeaderError
  payload_error : GoError → HeaderError

-- hdr.Xattrs[rootlesscontainers.Keyname]
abbrev pub marker : Option (Dict Text) → Option Text
marker none = none
marker (some m) = lookup keyname m

abbrev pub delete_marker : Option (Dict Text) → Option (Dict Text)
delete_marker none = none
delete_marker (some m) = some (erase keyname m)

-- An id of the payload, unless it is the one that says nothing.
abbrev pub id_of_payload : ℕ → ℤ
id_of_payload id = if id == noop_id then pos 0 else pos id

module _ (P : Proto) where
  -- The rootless branch of mapHeader.
  unfoldable pub map_rootless : Header → Result HeaderError Header
  map_rootless hdr = elim (marker hdr.xattrs) [
    | none ↦ ok (record hdr { uid = pos 0; gid = pos 0 })
    | some value ↦ do
      payload ← wrap payload_error (P.unmarshal value)
      ok (record hdr {
        uid = id_of_payload payload.uid;
        gid = id_of_payload payload.gid;
        xattrs = delete_marker hdr.xattrs;
      })
  ]

  -- mapHeader
  unfoldable pub map_header : MapOptions → Header → Result HeaderError Header
  unfolding map_rootless
  map_header opts hdr = if opts.rootless then map_rootless hdr else (do
    new_uid ← wrap map_uid (to_container hdr.uid opts.uid_mappings)
    new_gid ← wrap map_gid (to_container hdr.gid opts.gid_mappings)
    ok (record hdr { uid = new_uid; gid = new_gid }))

  -- The payload that unmapHeader makes: the owner, where it is not 0.
  abbrev pub payload_id : ℤ → ℕ
  payload_id (pos n) = if n == 0 then noop_id else to_u32 (pos n)
  payload_id (negsuc n) = to_u32 (negsuc n)

  -- rootlesscontainers.IsDefault
  abbrev pub is_default : Resource → Bool
  is_default r = (r.uid == noop_id) && (r.gid == noop_id)

  -- The rootless part of unmapHeader: the owner becomes root, and is kept in an xattr.
  unfoldable pub hide_owner : Header → Dict Text → Result HeaderError Header
  hide_owner hdr m =
      let payload : Resource = record { uid = payload_id hdr.uid; gid = payload_id hdr.gid } in
      let clean = erase keyname m in
      if is_default payload
      then ok (record hdr { uid = pos 0; gid = pos 0; xattrs = some clean })
      else (do
        value ← wrap payload_error (P.marshal payload)
        ok (record hdr { uid = pos 0; gid = pos 0; xattrs = some (insert keyname value clean) }))

  -- The last part of unmapHeader.
  unfoldable pub to_host_ids : MapOptions → Header → Result HeaderError Header
  to_host_ids opts hdr = do
    new_uid ← wrap map_uid (to_host hdr.uid opts.uid_mappings)
    new_gid ← wrap map_gid (to_host hdr.gid opts.gid_mappings)
    ok (record hdr { uid = new_uid; gid = new_gid })

  abbrev pub xattrs_of : Header → Dict Text
  xattrs_of hdr = elim hdr.xattrs [ none ↦ [] | some m ↦ m ]

  -- unmapHeader
  unfoldable pub unmap_header : MapOptions → Header → Result HeaderError Header
  unfolding hide_owner to_host_ids
  unmap_header opts hdr =
      if opts.rootless
      then hide_owner hdr (xattrs_of hdr) >>= to_host_ids opts
      else to_host_ids opts (record hdr { xattrs = some (xattrs_of hdr) })
