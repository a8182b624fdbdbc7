-- ===== src/Config.antt =====
-- What a container is to run: port specifications and references in texts, and the configuration
-- of a container compared with, and merged into, that of an image.
pub mod Parsers
pub mod Ports
pub mod Runconfig
pub mod Hosts
pub mod Version
