-- ===== src/Archive.antt =====
-- Archives of directories, and what changes between two of them: archive/.
pub mod Changes
pub mod Layers
mod Tests
