-- ===== src/Layer.antt =====
-- oci/layer: layers as tar streams.
pub mod Header
pub mod HeaderLaws
pub mod Paths
pub mod Extractor
pub mod Metadata
pub mod Whiteout
pub mod Create
pub mod Entry
pub mod PathLaws
pub mod UpperPaths
pub mod Inside
pub mod Spared
pub mod Guarded
pub mod Confined
pub mod ConfinedWhiteout
pub mod ConfinedCreate
pub mod ConfinedEntry
pub mod ConfinedLayer
