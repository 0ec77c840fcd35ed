-- ===== src/Command/Quit.antt =====
-- IRC_PROTOCOL_SERVER/command/Quit.cpp
use irc_protocol_server.Base.{ℤ, int_key, nat_key, Text, text, text_key, Option, none, some, List}
use irc_protocol_server.Server.{
  M, pure, for_ever, ◌>>=◌, ◌>>◌, for_each, lookup_client, find_channel, dismiss,
}
use irc_protocol_server.Client.{Client}
use irc_protocol_server.Channel.{Channel}
use irc_protocol_server.Util.{channel_message, message_all_channel}
use irc_protocol_server.Command.Part.{leave_channel, drop_if_empty}

-- A channel that is not in the table is met again and again: `continue` skips the step.
abbrev pub quit_found : ℤ → Text → Option Channel → M (Unit {0})
quit_found fd message none = for_ever
quit_found fd message (some channel) = do
  leave_channel fd channel.channel_name
  message_all_channel fd channel.channel_name (text "QUIT") message
  drop_if_empty channel.channel_name

unfoldable pub quit_channel : ℤ → Text → Text → M (Unit {0})
quit_channel fd message name = do found ← find_channel name; quit_found fd message found

abbrev pub quit_client : ℤ → Text → Option Client → M (Unit {0})
quit_client fd message none = pure tt
quit_client fd message (some client) = do
  for_each client.channel_list (quit_channel fd message)
  dismiss fd

unfoldable pub quit : ℤ → List Text → M (Unit {0})
quit fd cmd_vector = do
  found ← lookup_client fd
  quit_client fd (channel_message 1 cmd_vector) found
