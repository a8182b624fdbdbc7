-- ===== src/Streams.antt =====
-- What goes over a connection or to a shell: utils/stdcopy.go and utils/utils.go.
pub mod StdCopy
pub mod Shell
