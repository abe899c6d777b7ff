-- ===== src/Exec/Commit.antt =====
-- internal/exec/commit.go and internal/exec/commitwriter.go: what is held before the first byte
-- of an answer goes out, and the record that it went out.
pub mod Buffer
pub mod Writer
