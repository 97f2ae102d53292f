-- ===== src/StreamMux.antt =====
-- src/internal/streammux: streams of bytes over one connection.
pub mod Frames
pub mod Mux
