-- ===== src/Rules.antt =====
-- Laws of the guards of JOIN, of the registration, of nicknames, messages, topics and invitations,
-- of channel modes, of texts and numbers, of broadcasts, of messages in parts and of the set-up.
pub mod Join
pub mod Pass
pub mod Modes
pub mod Texts
pub mod Messages
pub mod Reading
pub mod Startup
pub mod Parts
pub mod Numbers
pub mod Accepted
pub mod Registration
pub mod Delivery
pub mod Mailed
pub mod Mail
pub mod Told
pub mod Unbuffered
pub mod Privmsg
pub mod Flags
pub mod Heralds
pub mod Renaming
pub mod Topic
pub mod Invite
