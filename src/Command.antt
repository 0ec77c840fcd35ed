-- ===== src/Command.antt =====
-- IRC_PROTOCOL_SERVER/command and IRC_PROTOCOL_SERVER/src/Command.cpp: a module for each command,
-- and the dispatch.
pub mod Pass
pub mod Nick
pub mod User
pub mod Privmsg
pub mod Join
pub mod Part
pub mod Kick
pub mod Quit
pub mod Topic
pub mod Invite
pub mod List
pub mod Ping
pub mod Mode
pub mod Parse
pub mod Irssi
pub mod Dispatch
