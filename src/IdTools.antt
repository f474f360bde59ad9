-- ===== src/IdTools.antt =====
-- pkg/idtools/idtools.go: user and group ids under the mappings of a user namespace.
pub mod Mapping
pub mod RoundTrip
pub mod Parse
pub mod ParseLaws
