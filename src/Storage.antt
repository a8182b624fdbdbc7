-- ===== src/Storage.antt =====
-- The thin devices of the images and containers: daemon/graphdriver/devmapper.
pub mod Metadata
pub mod Devices
pub mod Mounts
mod Tests
