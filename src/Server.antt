-- ===== src/Server.antt =====
-- The tables of IRC_PROTOCOL_SERVER/src/Server.cpp, and the ways in which the commands read and
-- write them
pub mod State
pub mod Tables
pub mod Ensures
pub mod Keeps
pub mod Links
pub mod Quiet
pub mod Counts
pub mod Changes
pub mod Entries
pub mod Alters
pub mod Nicknames
pub mod Yields
pub mod Obeys
unfoldable pub use State.*
unfoldable pub use Tables.*
