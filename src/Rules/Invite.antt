-- ===== src/Rules/Invite.antt =====
-- INVITE of IRC_PROTOCOL_SERVER/command/Invite.cpp, and what JOIN
-- (IRC_PROTOCOL_SERVER/src/Command.cpp, command/Join.cpp) makes of the invitation
use irc_protocol_server.Base.{ℕ, ℤ, nat_key, Text, text_key, ◌≡◌, ◌≢◌, some, List, find, update}
use irc_protocol_server.Client.{Client}
use irc_protocol_server.Channel.{Channel, append_fd_list_invite}
use irc_protocol_server.Server.{Server}
use irc_protocol_server.Server.Ensures.{Ensures}
use irc_protocol_server.Command.Join.{invite_only, admission}

-- What INVITE leaves in the table of channels
abbrev pub Invited : Server → Text → Channel → ℤ → Server → Type 0
Invited s name ch guest t =
    (t.channel_list ≡ update name (append_fd_list_invite guest) s.channel_list)
    × (find name t.channel_list ≡ some (append_fd_list_invite guest ch))
    × ((size : ℕ) (keys : List Text) (at : ℕ)
        → admission guest size keys at (append_fd_list_invite guest ch) ≢ invite_only)
