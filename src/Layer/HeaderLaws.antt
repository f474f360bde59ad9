-- ===== src/Layer/HeaderLaws.antt =====
-- oci/layer/utils.go: mapHeader undoes unmapHeader.
use umoci.Base.{
  ℕ, ◌<◌, ◌≡◌, refl, ◌∙◌, inl, inr, true, false, String, Option, none, some, List, [], ◌∷◌, Text,
  arith,
}
use umoci.Base.Dict.{Dict, lookup, insert, erase, lookup-insert, eq_self}
use umoci.Base.Int.{ℤ, pos, u32_mod}
use umoci.Base.Result.{ok, Result-cases}
use umoci.IdTools.Mapping.{LinuxIdMapping, to_host, to_container}
use umoci.IdTools.RoundTrip.{IsInjective, to_container-to_host}
use umoci.Layer.Header.{
  MapOptions, Header, Resource, keyname, noop_id, Proto, map_rootless, map_header, hide_owner,
  to_host_ids, xattrs_of, unmap_header, payload_id, id_of_payload,
}

-- What is unmarshalled is what was marshalled.
pub record IsLawful (P : Proto) : Type 0 where
  pub unmarshal-marshal : (r : Resource) {b : Text} → P.marshal r ≡ ok b → P.unmarshal b ≡ ok r

module _ {ℓ} {V : Type ℓ} where
  erase_absent : (k : String) (m : Dict V) → lookup k m ≡ none → erase k m ≡ m
  unfolding lookup erase
  erase_absent k [] h = refl
  erase_absent k ((j, v) ∷ m) h = ground (arith, erase_absent k m)

  erase-insert : (k : String) (v : V) (m : Dict V) → lookup k m ≡ none → erase k (insert k v m) ≡ m
  unfolding lookup insert erase
  erase-insert k v [] h = ground (arith, eq_self k)
  erase-insert k v ((j, w) ∷ m) h = ground (arith, eq_self k, erase-insert k v m)

-- Mappings under which ToContainer undoes ToHost: none at all, or an injective list.
abbrev pub IsInvertible : Option (List LinuxIdMapping) → Type 0
IsInvertible none = Unit {0}
IsInvertible (some ms) = IsInjective ms

to_container-to_host_option :
    (id : ℕ) (h : ℤ) (ms : Option (List LinuxIdMapping))
    → id < u32_mod
    → IsInvertible ms
    → to_host (pos id) ms ≡ ok h
    → to_container h ms ≡ ok (pos id)
to_container-to_host_option id h none l v e = unfold to_host to_container in cc
to_container-to_host_option id h (some ms) l v e = to_container-to_host id h ms l v e

module _ (P : Proto) where
  to_host_ids-ok :
      (opts : MapOptions) (hdr out : Header)
      → to_host_ids P opts hdr ≡ ok out
      → (hu : ℤ) × (hg : ℤ) × (to_host hdr.uid opts.uid_mappings ≡ ok hu)
        × (to_host hdr.gid opts.gid_mappings ≡ ok hg)
        × (out ≡ record hdr { uid = hu; gid = hg })
  unfolding to_host_ids
  to_host_ids-ok opts hdr out h = elim (Result-cases (to_host hdr.uid opts.uid_mappings)) [
    | inr (x, e) ↦ ground arith
    | inl (hu, e) ↦ elim (Result-cases (to_host hdr.gid opts.gid_mappings)) [
      | inr (x, f) ↦ ground arith
      | inl (hg, f) ↦ (hu, hg, e, f, ground arith)
    ]
  ]

  -- Without rootless mode, for a header whose owner is below 2 ^ 32 and mappings that are none or
  -- injective, mapHeader takes the header that unmapHeader gives back to the one that it was given,
  -- with an empty map of xattrs in place of a nil one.
  pub map_header-unmap_header_root :
      (opts : MapOptions) (hdr out : Header) (u g : ℕ)
      → opts.rootless ≡ false
      → hdr.uid ≡ pos u
      → hdr.gid ≡ pos g
      → u < u32_mod
      → g < u32_mod
      → IsInvertible opts.uid_mappings
      → IsInvertible opts.gid_mappings
      → unmap_header P opts hdr ≡ ok out
      → map_header P opts out
        ≡ ok (record hdr { xattrs = some (elim hdr.xattrs [ none ↦ [] | some m ↦ m ]) })
  unfolding unmap_header map_header
  map_header-unmap_header_root opts hdr out u g r eu eg lu lg vu vg h =
      let (hu, hg, e, f, q) =
        to_host_ids-ok opts
          (record hdr { xattrs = some (elim hdr.xattrs [ none ↦ [] | some m ↦ m ]) }) out
          (rw r at h) in
      ground (
        arith,
        to_container-to_host_option u hu opts.uid_mappings lu vu (rw eu at e),
        to_container-to_host_option g hg opts.gid_mappings lg vg (rw eg at f),
      )

  abbrev payload_of : Header → Resource
  payload_of hdr = record { uid = payload_id P hdr.uid; gid = payload_id P hdr.gid }

  owner_payload : (n : ℕ) → n < noop_id → id_of_payload (payload_id P (pos n)) ≡ pos n
  owner_payload n l = ground arith

  hide_owner-ok :
      IsLawful P
      → (hdr hidden : Header) (m : Dict Text) (u g : ℕ) → hdr.uid ≡ pos u
      → hdr.gid ≡ pos g
      → u < noop_id
      → g < noop_id
      → lookup keyname m ≡ none
      → hide_owner P hdr m ≡ ok hidden
      → map_rootless P hidden ≡ ok (record hdr { xattrs = some m })
  unfolding hide_owner map_rootless
  hide_owner-ok L hdr hidden m u g eu eg lu lg fresh h =
      elim (Result-cases (P.marshal (payload_of hdr))) [
        | inr (x, e) ↦
            ground (arith, erase_absent keyname m fresh, owner_payload u lu, owner_payload g lg)
        | inl (b, e) ↦ ground (
          arith,
          erase_absent keyname m fresh,
          erase-insert keyname b m fresh,
          lookup-insert keyname keyname b m,
          L.unmarshal-marshal (payload_of hdr) e,
          owner_payload u lu,
          owner_payload g lg,
        )
      ]

  map_rootless_congr :
      (a b : Header) → a.name ≡ b.name → a.xattrs ≡ b.xattrs → map_rootless P a ≡ map_rootless P b
  unfolding map_rootless
  map_rootless_congr a b n x = ground arith

  -- In rootless mode, for a header without the special xattr whose owner is below 2 ^ 32 - 1,
  -- where unmapHeader succeeds, mapHeader takes the header that it gives back to the one that it was
  -- given, with an empty map of xattrs in place of a nil one, whatever the mappings.
  pub map_header-unmap_header_rootless :
      IsLawful P
      → (opts : MapOptions) (hdr out : Header) (u g : ℕ) → opts.rootless ≡ true
      → hdr.uid ≡ pos u
      → hdr.gid ≡ pos g
      → u < noop_id
      → g < noop_id
      → lookup keyname (xattrs_of P hdr) ≡ none
      → unmap_header P opts hdr ≡ ok out
      → map_header P opts out ≡ ok (record hdr { xattrs = some (xattrs_of P hdr) })
  unfolding unmap_header map_header
  map_header-unmap_header_rootless L opts hdr out u g r eu eg lu lg fresh h =
      elim (Result-cases (hide_owner P hdr (xattrs_of P hdr))) [
        | inr (x, e) ↦ ground arith
        | inl (hidden, e) ↦
            let (hu, hg, p, q, w) = to_host_ids-ok opts hidden out (ground arith) in
            rw r (
              map_rootless_congr out hidden (ground arith) (ground arith)
              ∙ hide_owner-ok L hdr hidden (xattrs_of P hdr) u g eu eg lu lg fresh e)
      ]
