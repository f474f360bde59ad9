-- ===== src/Hardening.antt =====
-- pkg/hardening: readers that check the digest and the size of what they deliver.
pub mod Reader
pub mod Verified
pub mod Stream
