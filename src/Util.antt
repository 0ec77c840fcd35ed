-- ===== src/Util.antt =====
-- IRC_PROTOCOL_SERVER/src/Util.cpp: text helpers, message forms and broadcasts.
pub mod Words
pub mod Broadcast
pub mod Quiet
pub mod Obeys
pub mod Replies
unfoldable pub use Words.*
unfoldable pub use Broadcast.*
