-- ===== src/Authority/Reports.antt =====
-- LIST, PING and what comes before and after a handler in IRC_PROTOCOL_SERVER/src/Command.cpp: none
-- writes to a channel.
use irc_protocol_server.Base.{ℤ, int_key, Text, Option, none, some, List, [], ◌∷◌}
use irc_protocol_server.Client.{Client}
use irc_protocol_server.Channel.{Channel}
use irc_protocol_server.Server.{Server}
use irc_protocol_server.Server.Obeys.{
  Obeys, Obeys-bind, Obeys-option, Obeys-pure, Obeys-throw, Obeys-gets, Obeys-when, Obeys-for_each,
  Obeys-find_channel, Obeys-lookup_client, OfChannels, Obeys-modify_client, Obeys-index_client,
  Obeys-send_buffer,
}
use irc_protocol_server.Command.Ping.{ping_client, ping}
use irc_protocol_server.Command.List.{
  list_channel, list_found, list_all, list_channels, list_client, list,
}
use irc_protocol_server.Command.Irssi.{
  welcome, irssi_words, irssi_command, irssi_line, irssi_sign_up,
}
use irc_protocol_server.Command.Dispatch.{
  not_register, sign_up_command, sign_up, unknown_command, take_eof_buffer, keep_partial,
}
use irc_protocol_server.Authority.Idle.{
  two_writes-Obeys, turn_away-Obeys, pass-Obeys, user-Obeys, nick-Obeys,
}

module _ {P : Server → Type 0} (of : OfChannels P) (fd : ℤ) where
  ping_client-Obeys :
      (words : List Text) (found : Option Client) → Obeys P (ping_client fd words found)
  ping_client-Obeys words none = Obeys-pure tt
  ping_client-Obeys [] (some c) = two_writes-Obeys of fd _ _
  ping_client-Obeys (verb ∷ []) (some c) = two_writes-Obeys of fd _ _
  ping_client-Obeys (verb ∷ token ∷ rest) (some c) = Obeys-modify_client of fd _

  pub ping-Obeys : (words : List Text) → Obeys P (ping fd words)
  unfolding ping
  ping-Obeys words = Obeys-bind (Obeys-lookup_client fd) λ found. ping_client-Obeys words found

  list_channel-Obeys : (channel : Channel) → Obeys P (list_channel fd channel)
  unfolding list_channel
  list_channel-Obeys channel = Obeys-modify_client of fd _

  list_found-Obeys : (found : Option Channel) → Obeys P (list_found fd found)
  list_found-Obeys none = Obeys-pure tt
  list_found-Obeys (some channel) = list_channel-Obeys channel

  list_all-Obeys : Obeys P (list_all fd)
  list_all-Obeys =
      Obeys-bind (Obeys-gets _)
        λ channels. Obeys-for_each channels λ entry. list_channel-Obeys entry.1

  list_channels-Obeys : (words : List Text) → Obeys P (list_channels fd words)
  list_channels-Obeys [] = list_all-Obeys
  list_channels-Obeys (verb ∷ []) = list_all-Obeys
  list_channels-Obeys (verb ∷ names ∷ words) = Obeys-when _ list_all-Obeys (
      Obeys-for_each _ λ name. Obeys-bind (Obeys-find_channel name) λ found. list_found-Obeys found)

  list_client-Obeys :
      (words : List Text) (found : Option Client) → Obeys P (list_client fd words found)
  list_client-Obeys words none = Obeys-pure tt
  list_client-Obeys words (some c) = Obeys-bind (Obeys-modify_client of fd _) λ _.
      Obeys-bind (list_channels-Obeys words) λ _.
        Obeys-bind (Obeys-modify_client of fd _)
          λ _. Obeys-bind (Obeys-send_buffer of fd) λ _. Obeys-modify_client of fd _

  pub list-Obeys : (words : List Text) → Obeys P (list fd words)
  unfolding list
  list-Obeys words = Obeys-bind (Obeys-lookup_client fd) λ found. list_client-Obeys words found

  pub unknown_command-Obeys : (verb : Text) → Obeys P (unknown_command fd verb)
  unfolding unknown_command
  unknown_command-Obeys verb =
      Obeys-option _ (Obeys-lookup_client fd) (Obeys-pure tt) λ c. Obeys-modify_client of fd _

  welcome-Obeys : Obeys P (welcome fd)
  unfolding welcome
  welcome-Obeys =
      Obeys-option _ (Obeys-lookup_client fd) (Obeys-pure tt)
        λ c. Obeys-when _ (Obeys-modify_client of fd _) (Obeys-pure tt)

  sign_up_command-Obeys : (words : List Text) → Obeys P (sign_up_command fd words)
  unfolding not_register
  sign_up_command-Obeys [] = Obeys-pure tt
  sign_up_command-Obeys (verb ∷ words) = Obeys-when _ (pass-Obeys of fd _) (
      Obeys-when _ (nick-Obeys of fd _)
        (Obeys-when _ (user-Obeys of fd _) (turn_away-Obeys of fd _)))

  pub sign_up-Obeys : (words : List Text) → Obeys P (sign_up fd words)
  unfolding sign_up
  sign_up-Obeys words = Obeys-bind (sign_up_command-Obeys words) λ _. welcome-Obeys

  irssi_command-Obeys : (words : Option (List Text)) → Obeys P (irssi_command fd words)
  irssi_command-Obeys none = Obeys-throw
  irssi_command-Obeys (some []) = Obeys-pure tt
  irssi_command-Obeys (some (verb ∷ words)) =
      Obeys-when _ (pass-Obeys of fd _)
        (Obeys-when _ (nick-Obeys of fd _) (Obeys-when _ (user-Obeys of fd _) (Obeys-pure tt)))

  pub irssi_sign_up-Obeys : (message : Text) → Obeys P (irssi_sign_up fd message)
  unfolding irssi_sign_up irssi_line
  irssi_sign_up-Obeys message =
      Obeys-bind (Obeys-for_each _ λ line. irssi_command-Obeys (irssi_words line))
        λ _. welcome-Obeys

  pub take_eof_buffer-Obeys : (message : Text) → Obeys P (take_eof_buffer fd message)
  unfolding take_eof_buffer
  take_eof_buffer-Obeys message = Obeys-bind (Obeys-index_client of fd) λ client.
      Obeys-when _
        (Obeys-bind (Obeys-modify_client of fd _)
          λ _. Obeys-bind (Obeys-modify_client of fd _) λ _. Obeys-pure _)
        (Obeys-pure message)

  pub keep_partial-Obeys : (message : Text) → Obeys P (keep_partial fd message)
  unfolding keep_partial
  keep_partial-Obeys message =
      Obeys-bind (Obeys-index_client of fd) λ client. two_writes-Obeys of fd _ _
