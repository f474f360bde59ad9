-- ===== src/CasDir.antt =====
-- oci/cas/dir/dir.go: a store of blobs in a directory.
pub mod Disk
pub mod Engine
pub mod Layout
pub mod Laws
pub mod Quiet
pub mod Blobs
pub mod Flat
pub mod Listing
pub mod Lawful
pub mod PutBlob
