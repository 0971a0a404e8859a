-- ===== src/Collab.antt =====
-- internal/collab/hub.go: the replay ring of one polling client, and the hub that routes messages.
pub mod Ring
pub mod Hub
