-- ===== src/Sse.antt =====
-- internal/sse: the event stream on the wire. Texts are lists of bytes.
pub mod Lines
pub mod Reader
pub mod Writer
mod Examples
