-- ===== src/Sync.antt =====
-- internal/sync: what hosts tell each other of their entries. Wire is wire.go.
pub mod Wire
pub mod Engine
