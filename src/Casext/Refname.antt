-- ===== src/Casext/Refname.antt =====
-- oci/casext/refname.go: reference names, and the index entries that carry them.
pub mod Regex
pub mod Name
pub mod References
pub mod ReferencesLaws
