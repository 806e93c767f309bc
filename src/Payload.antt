-- ===== src/Payload.antt =====
-- store/clientpayload.go: the version of the WhatsApp web client, and what a device sends when it
-- connects.
mod Decimal
mod Version
pub mod Printed
pub mod Order
mod Client
pub mod Registration
unfoldable pub use Decimal.*
unfoldable pub use Version.*
unfoldable pub use Client.*
