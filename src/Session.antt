-- ===== src/Session.antt =====
-- whatsapp-daemon/internal/auth/auth.go: what the daemon does with the events of a WhatsApp session.
-- The connection, the decoding of messages and the downloads are calls of whatsmeow.
pub mod Message
pub mod Handling
pub mod History
pub mod Connection
pub mod Queue
pub mod Serve
