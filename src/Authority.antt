-- ===== src/Authority.antt =====
-- What a client that is not an operator of a channel may write of it, over all commands of
-- IRC_PROTOCOL_SERVER/command and `Command::run`.
use irc_protocol_server.Base.{
  ℤ, int_key, Text, text_key, ◌==◌, ◌≡◌, Option, none, some, List, [], ◌∷◌, find, if◌then◌else◌,
}
use irc_protocol_server.Channel.{Channel}
use irc_protocol_server.Server.{Server}
pub mod Idle
pub mod Reports
pub mod Writes
pub mod Members
pub mod Entering
pub mod Operators
pub mod Settings
pub mod Modes
pub mod Scope
pub mod Topics
pub mod Run

-- All but the occurrences of one descriptor
unfoldable pub without : ℤ → List ℤ → List ℤ
without fd [] = []
without fd (x ∷ xs) = let rest = without fd xs in if x == fd then rest else x ∷ rest

-- A channel, less what the client at `fd` may write without being an operator: whether it is a
-- member itself, its own invitation, and the topic where that is not restricted.
unfoldable pub guarded : ℤ → Channel → Channel
unfolding without
guarded fd c = record c {
  client_fd_list = without fd c.client_fd_list;
  invite_fd_list = without fd c.invite_fd_list;
  topic = if c.topic_status then c.topic else [];
}

-- What became of a channel: it is guarded as `r` is, or, where `Gone` allows it, it is deleted.
abbrev pub Held : ℤ → Channel → Type 0 → Option Channel → Type 0
Held fd r Gone none = Gone
Held fd r Gone (some d) = guarded fd d ≡ r

pub record Governed (fd : ℤ) (name : Text) (r : Channel) (Gone : Type 0) (s : Server) : Type 0 where
  pub named : (n : Text) (c : Channel) → find n s.channel_list ≡ some c → c.channel_name ≡ n
  pub held : Held fd r Gone (find name s.channel_list)
