-- ===== src/Command/Part.antt =====
-- IRC_PROTOCOL_SERVER/command/Part.cpp
use irc_protocol_server.Base.{
  ℤ, int_key, nat_key, Text, text, text_key, ◌==◌, Option, none, some, List, ◌∷◌, length,
}
use irc_protocol_server.Server.{
  when◌act◌otherwise◌, M, pure, ◌>>=◌, ◌>>◌, for_each, client_at, modify_client, find_channel,
  deref_channel, modify_channel, remove_channel,
}
use irc_protocol_server.Client.{
  Client, append_recive_buf, clear_recive_buf, set_regi_pass, set_regi_nick, set_regi_user,
  set_nickname, set_userinfo, append_channel_list, delete_channel,
}
use irc_protocol_server.Client
use irc_protocol_server.Channel.{Channel, remove_fd_list_client, remove_operator_fd}
use irc_protocol_server.Error.{
  error_nosuchchannel_403, error_notonchannel_442, error_needmoreparams_461,
}
use irc_protocol_server.Util.{split, channel_message, message_all_channel}

-- `removeFdListClient` and `removeOperatorFd`
unfoldable pub leave_channel : ℤ → Text → M (Unit {0})
leave_channel fd name = do
  modify_channel name (remove_fd_list_client fd)
  modify_channel name (remove_operator_fd fd)

-- A channel that nobody is in any more is deleted.
unfoldable pub drop_if_empty : Text → M (Unit {0})
drop_if_empty name = do
  channel ← find_channel name >>= deref_channel
  when length channel.client_fd_list == 0 act remove_channel channel.channel_name otherwise pure tt

abbrev pub not_joined : ℤ → Text → Option Channel → M (Unit {0})
not_joined fd name none = modify_client fd (error_nosuchchannel_403 name)
not_joined fd name (some _) = modify_client fd (error_notonchannel_442 name)

unfoldable pub part_channel : ℤ → Text → Text → M (Unit {0})
part_channel fd message name = do
  client ← client_at fd
  when Client.find_channel name client
      act (do
        message_all_channel fd name (text "PART") message
        leave_channel fd name
        modify_client fd (delete_channel name)
        drop_if_empty name)
      otherwise (do found ← find_channel name; not_joined fd name found)

unfoldable pub part : ℤ → List Text → M (Unit {0})
part fd (verb ∷ names ∷ words) =
    for_each (split names b',') (part_channel fd (channel_message 2 (verb ∷ names ∷ words)))
part fd _ = modify_client fd error_needmoreparams_461
