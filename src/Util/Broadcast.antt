-- ===== src/Util/Broadcast.antt =====
-- The message forms of IRC_PROTOCOL_SERVER/src/Util.cpp, and the functions that write to all
-- members of a channel.
use irc_protocol_server.Base.{
  ℤ, int_key, nat_key, Text, text, text_key, ◌==◌, ◌&&◌, ◌||◌, Option, none, some, List, [], ◌∷◌,
  ◌++◌, contains, push_back, drop, length, if◌then◌else◌,
}
use irc_protocol_server.Client.{Client, append_recive_buf}
use irc_protocol_server.Channel.{Channel, diff_operator}
use irc_protocol_server.Error.{crlf}
use irc_protocol_server.Server.{
  when◌act◌otherwise◌, M, pure, gets, modify, ◌>>=◌, ◌>>◌, for_each, client_at, modify_client,
  find_channel, deref_channel,
}

-- PREFIX_SERVERNAME
abbrev pub prefix_servername : Text
prefix_servername = text "localhost.42seoul.kr"

-- ":nick!user@server" of a client
unfoldable pub client_prefix : Client → Text
client_prefix c =
    text ":" ++ (c.nick_name ++ (text "!" ++ (c.user_name ++ (text "@" ++ c.server_name))))

-- `makeMsgForm`, at the client of its descriptor
unfoldable pub make_msg_form : Client → Text → Text
unfolding client_prefix
make_msg_form client command =
    if command == text "PRIVMSG"
      || (command == text "JOIN"
          || (command == text "QUIT"
              || (command == text "PART"
                  || (command == text "NICK"
                      || (command == text "MODE" || command == text "KICK")))))
    then client_prefix client
    else text ":" ++ prefix_servername

-- The line that a member gets, by the command; `client` is the sender.
unfoldable pub broadcast_line : Client → Text → Text → Text → Text
unfolding make_msg_form
broadcast_line client channel_name command message =
    make_msg_form client command
    ++ (text " "
        ++ (command
            ++ (if command == text "PRIVMSG" || (command == text "JOIN" || command == text "TOPIC")
                then text " " ++ (channel_name ++ (text " :" ++ (message ++ crlf)))
                else if command == text "KICK"
                then text " "
                  ++ (channel_name
                      ++ (text " " ++ (message ++ (text " :" ++ (client.nick_name ++ crlf)))))
                else if command == text "PART"
                then (if message == text "NO REASON"
                    then text " :" ++ (channel_name ++ crlf)
                    else text " " ++ (channel_name ++ (text " :" ++ (message ++ crlf))))
                else text " :" ++ (message ++ crlf))))

-- `targetClient.appendReciveBuf(line)`, where the line names the client at `fd`
unfoldable pub write_line : ℤ → (Client → Text) → ℤ → M (Unit {0})
write_line fd line target = do
  client ← client_at fd
  modify_client target (append_recive_buf (line client))

-- A NICK line goes to each descriptor once.
unfoldable pub deliver_nick : ℤ → (Client → Text) → ℤ → Client → M (Unit {0})
deliver_nick fd line target reader = do
  seen ← gets (λ s. contains reader.fd s.send_nick_list)
  when seen act pure tt otherwise do
    write_line fd line target
    modify (λ s. record s { send_nick_list = push_back s.send_nick_list reader.fd })

-- One round of the loop of `messageAllChannel`
unfoldable pub deliver : ℤ → Text → Text → Text → ℤ → M (Unit {0})
deliver fd channel_name command message target = do
  reader ← client_at target
  let line = λ (client : Client). broadcast_line client channel_name command message
  when fd == target && command == text "PRIVMSG"
      act pure tt
      otherwise when command == text "NICK"
      act deliver_nick fd line target reader
      otherwise write_line fd line target

abbrev pub to_members : Option Channel → (ℤ → M (Unit {0})) → M (Unit {0})
to_members none body = pure tt
to_members (some channel) body = for_each channel.client_fd_list body

-- `messageAllChannel`
unfoldable pub message_all_channel : ℤ → Text → Text → Text → M (Unit {0})
message_all_channel fd channel_name command message = do
  found ← find_channel channel_name
  to_members found (deliver fd channel_name command message)

-- One round of the loop of `plus_messageAllChannel`
unfoldable pub deliver_plus : ℤ → Text → Text → Text → Text → ℤ → M (Unit {0})
deliver_plus fd channel_name command message plus_message target = do
  _ ← client_at target
  when fd == target && command == text "PRIVMSG"
      act pure tt
      otherwise write_line fd
          (λ client.
            make_msg_form client command
            ++ (text " "
                ++ (command
                    ++ (if command == text "MODE"
                        then text " "
                          ++ (channel_name
                              ++ (text " " ++ (message ++ (text " :" ++ (plus_message ++ crlf)))))
                        else text " :" ++ (message ++ crlf)))))
          target

-- `plus_messageAllChannel`
unfoldable pub plus_message_all_channel : ℤ → Text → Text → Text → Text → M (Unit {0})
plus_message_all_channel fd channel_name command message plus_message = do
  found ← find_channel channel_name
  to_members found (deliver_plus fd channel_name command message plus_message)

-- `topicMessage`: the topic without its first byte, to the client that has joined
unfoldable pub topic_message : ℤ → Text → M (Unit {0})
topic_message fd channel_name = do
  channel ← find_channel channel_name >>= deref_channel
  when length channel.topic == 0
      act pure tt
      otherwise modify_client fd (λ client.
        append_recive_buf
          (text "332 "
            ++ (client.nick_name
                ++ (text " " ++ (channel_name ++ (text " :" ++ (drop 1 channel.topic ++ crlf))))))
          client)

abbrev pub gap_before : List ℤ → Text
gap_before [] = []
gap_before (_ ∷ _) = text " "

-- The names of the members, in the order of the channel, operators marked by '@'
unfoldable pub name_list : Channel → List ℤ → M Text
name_list channel [] = pure []
name_list channel (fd ∷ fds) = do
  client ← client_at fd
  rest ← name_list channel fds
  let mark = if diff_operator client.fd channel then text "@" else []
  pure (mark ++ (client.nick_name ++ (gap_before fds ++ rest)))

abbrev pub name_list_reply : ℤ → Text → Option Channel → M (Unit {0})
name_list_reply fd channel_name none = pure tt
name_list_reply fd channel_name (some channel) = do
  message ← name_list channel channel.client_fd_list
  modify_client fd (λ client.
      append_recive_buf
        (text ":"
          ++ (prefix_servername
              ++ (text " 353 "
                  ++ (client.nick_name
                      ++ (text " = " ++ (channel_name ++ (text " :" ++ (message ++ crlf))))))))
        client)
  modify_client fd (λ client.
      append_recive_buf
        (text ":"
          ++ (prefix_servername
              ++ (text " 366 "
                  ++ (client.nick_name
                      ++ (text " " ++ (channel_name ++ (text " :End of /NAMES list." ++ crlf)))))))
        client)

-- `nameListMsg`
unfoldable pub name_list_msg : ℤ → Text → M (Unit {0})
name_list_msg fd channel_name = do
  found ← find_channel channel_name
  name_list_reply fd channel_name found
