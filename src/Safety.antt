-- ===== src/Safety.antt =====
-- Lemmas on the handlers of IRC_PROTOCOL_SERVER/command and on connections, from well-formed
-- tables.
pub mod Live
pub mod Part
pub mod Join
pub mod Joins
pub mod Kick
pub mod Privmsg
pub mod Reports
pub mod SignUp
pub mod Renaming
pub mod Nick
pub mod Leaving
pub mod Quit
pub mod Connections
pub mod Mode
pub mod Modes
pub mod Joining
pub mod Handled
pub mod SignIn
pub mod Dispatch
pub mod Refusal
pub mod Closed
pub mod Sending
pub mod Sent
pub mod Rounds
