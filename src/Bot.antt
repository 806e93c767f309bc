-- ===== src/Bot.antt =====
-- The bot: control messages, WhatsApp events, and the WebSocket hub between them (messages.go,
-- session.go, ws.go).
mod Messages
mod Control
pub mod Asked
pub mod Replies
pub mod Encoded
unfoldable pub use Messages.*
unfoldable pub use Control.*
mod Server
mod Session
pub mod Started
pub mod Reach
pub mod Broadcast
pub mod Panics
unfoldable pub use Server.*
unfoldable pub use Session.*
