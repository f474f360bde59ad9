-- ===== src/Mutate.antt =====
-- mutate: changes to an image, made on cached copies and committed to the store.
pub mod Mutator
pub mod Commit
pub mod Layers
pub mod Path
