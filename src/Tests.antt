-- ===== src/Tests.antt =====
-- Runs on concrete data.
pub mod Ids
pub mod Streams
pub mod Store
pub mod Images
pub mod Mutators
pub mod Masks
pub mod MediaTypes
pub mod Values
pub mod Headers
pub mod Configs
pub mod Modes
pub mod Extraction
pub mod Links
pub mod Directory
