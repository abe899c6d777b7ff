-- ===== src/Edge.antt =====
-- internal/edge: what a client sees of an answer.
pub mod AnthropicStream
pub mod OpenaiStream
mod Examples
