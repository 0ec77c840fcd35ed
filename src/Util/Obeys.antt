-- ===== src/Util/Obeys.antt =====
-- The functions of IRC_PROTOCOL_SERVER/src/Util.cpp that write to the members of a channel write
-- to no channel.
use irc_protocol_server.Base.{ℤ, Text, refl, Option, none, some, List, [], ◌∷◌}
use irc_protocol_server.Client.{Client}
use irc_protocol_server.Channel.{Channel}
use irc_protocol_server.Server.{Server, M}
use irc_protocol_server.Server.Obeys.{
  Obeys, Obeys-bind, Obeys-pure, Obeys-gets, Obeys-modify, Obeys-when, Obeys-for_each,
  Obeys-find_channel, Obeys-deref_channel, Obeys-client_at, OfChannels, Obeys-modify_client,
}
use irc_protocol_server.Util.Broadcast.{
  write_line, deliver_nick, deliver, to_members, message_all_channel, deliver_plus,
  plus_message_all_channel, topic_message, name_list, name_list_reply, name_list_msg,
}

module _ {P : Server → Type 0} (of : OfChannels P) (fd : ℤ) where
  write_line-Obeys : (line : Client → Text) (target : ℤ) → Obeys P (write_line fd line target)
  unfolding write_line
  write_line-Obeys line target =
      Obeys-bind (Obeys-client_at fd) λ c. Obeys-modify_client of target _

  deliver-Obeys :
      (name command message : Text) (target : ℤ) → Obeys P (deliver fd name command message target)
  unfolding deliver deliver_nick
  deliver-Obeys name command message target = Obeys-bind (Obeys-client_at target) λ reader.
      Obeys-when _ (Obeys-pure tt) (
        Obeys-when _
          (Obeys-bind (Obeys-gets _) λ seen.
            Obeys-when seen (Obeys-pure tt)
              (Obeys-bind (write_line-Obeys _ target) λ _. Obeys-modify _ λ s p. of s _ refl p))
          (write_line-Obeys _ target))

  deliver_plus-Obeys :
      (name command message plus_message : Text) (target : ℤ)
      → Obeys P (deliver_plus fd name command message plus_message target)
  unfolding deliver_plus
  deliver_plus-Obeys name command message plus_message target =
      Obeys-bind (Obeys-client_at target)
        λ reader. Obeys-when _ (Obeys-pure tt) (write_line-Obeys _ target)

  to_members-Obeys :
      (found : Option Channel) (body : ℤ → M (Unit {0}))
      → ((target : ℤ) → Obeys P (body target))
      → Obeys P (to_members found body)
  to_members-Obeys none body h = Obeys-pure tt
  to_members-Obeys (some channel) body h = Obeys-for_each channel.client_fd_list h

  pub message_all_channel-Obeys :
      (name command message : Text) → Obeys P (message_all_channel fd name command message)
  unfolding message_all_channel
  message_all_channel-Obeys name command message =
      Obeys-bind (Obeys-find_channel name)
        λ found. to_members-Obeys found _ λ target. deliver-Obeys name command message target

  pub plus_message_all_channel-Obeys :
      (name command message plus_message : Text)
      → Obeys P (plus_message_all_channel fd name command message plus_message)
  unfolding plus_message_all_channel
  plus_message_all_channel-Obeys name command message plus_message =
      Obeys-bind (Obeys-find_channel name) λ found.
        to_members-Obeys found _
          λ target. deliver_plus-Obeys name command message plus_message target

  pub topic_message-Obeys : (name : Text) → Obeys P (topic_message fd name)
  unfolding topic_message
  topic_message-Obeys name =
      Obeys-bind (Obeys-bind (Obeys-find_channel name) Obeys-deref_channel)
        λ channel. Obeys-when _ (Obeys-pure tt) (Obeys-modify_client of fd _)

  name_list-Obeys : (channel : Channel) (fds : List ℤ) → Obeys P (name_list channel fds)
  unfolding name_list
  name_list-Obeys channel [] = Obeys-pure []
  name_list-Obeys channel (target ∷ fds) =
      Obeys-bind (Obeys-client_at target)
        λ c. Obeys-bind (name_list-Obeys channel fds) λ rest. Obeys-pure _

  name_list_reply-Obeys :
      (name : Text) (found : Option Channel) → Obeys P (name_list_reply fd name found)
  name_list_reply-Obeys name none = Obeys-pure tt
  name_list_reply-Obeys name (some channel) =
      Obeys-bind (name_list-Obeys channel channel.client_fd_list)
        λ message. Obeys-bind (Obeys-modify_client of fd _) λ _. Obeys-modify_client of fd _

  pub name_list_msg-Obeys : (name : Text) → Obeys P (name_list_msg fd name)
  unfolding name_list_msg
  name_list_msg-Obeys name =
      Obeys-bind (Obeys-find_channel name) λ found. name_list_reply-Obeys name found
