-- ===== src/Images.antt =====
-- The images' names: short prefixes of identifiers, and repositories with their tags.
pub mod TruncIndex
pub mod TagStore
