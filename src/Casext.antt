-- ===== src/Casext.antt =====
-- oci/casext: what umoci adds to a content-addressed store of blobs.
pub mod Refname
pub mod Value
pub mod ValueLaws
pub mod Walk
pub mod MediaType
pub mod MediaTypeLaws
pub mod Reach
pub mod Marking
pub mod Fuel
pub mod Gc
pub mod Sweep
pub mod Roots
pub mod GcLaws
