-- ===== src/Config.antt =====
-- oci/config: image configurations, and their conversion to runtime configurations.
pub mod Env
pub mod EnvLaws
pub mod Generator
pub mod Setters
pub mod Getters
pub mod GeneratorLaws
