-- ===== src/Command/List.antt =====
-- IRC_PROTOCOL_SERVER/command/List.cpp
use irc_protocol_server.Base.{
  ℤ, int_key, nat_key, Text, text, text_key, ◌==◌, Option, none, some, List, [], ◌∷◌, ◌++◌, length,
}
use irc_protocol_server.Server.{
  when◌act◌otherwise◌, M, pure, gets, ◌>>=◌, ◌>>◌, for_each, lookup_client, modify_client,
  find_channel, send_buffer,
}
use irc_protocol_server.Client.{Client, append_recive_buf, clear_recive_buf}
use irc_protocol_server.Channel.{Channel}
use irc_protocol_server.Error.{crlf}
use irc_protocol_server.Util.{split, int_to_string, prefix_servername}

abbrev in_reply : Text → (Client → Text) → Client → Client
in_reply number rest client =
    append_recive_buf
      (text ":" ++ (prefix_servername ++ (number ++ (client.nick_name ++ rest client)))) client

-- The 322 line of a channel
unfoldable pub list_channel : ℤ → Channel → M (Unit {0})
list_channel fd channel = modify_client fd (
    in_reply (text " 322 ") (λ client.
      text " "
      ++ (channel.channel_name
          ++ (text " "
              ++ (int_to_string (length channel.client_fd_list)
                  ++ (text " :[+" ++ (channel.topic ++ (text "]" ++ crlf))))))))

abbrev pub list_found : ℤ → Option Channel → M (Unit {0})
list_found fd none = pure tt
list_found fd (some channel) = list_channel fd channel

abbrev pub list_named : ℤ → Text → M (Unit {0})
list_named fd name = do found ← find_channel name; list_found fd found

abbrev pub list_all : ℤ → M (Unit {0})
list_all fd = do
  channels ← gets (λ s. s.channel_list)
  for_each channels (λ (name, channel). list_channel fd channel)

abbrev pub list_channels : ℤ → List Text → M (Unit {0})
list_channels fd (verb ∷ names ∷ words) =
    when names == [] act list_all fd otherwise for_each (split names b',') (list_named fd)
list_channels fd _ = list_all fd

abbrev pub list_client : ℤ → List Text → Option Client → M (Unit {0})
list_client fd cmd_vector none = pure tt
list_client fd cmd_vector (some _) = do
  modify_client fd (in_reply (text " 321 ") (λ client. text " Channel :Users Name" ++ crlf))
  list_channels fd cmd_vector
  modify_client fd (in_reply (text " 323 ") (λ client. text " :End of /LIST" ++ crlf))
  send_buffer fd
  modify_client fd clear_recive_buf

unfoldable pub list : ℤ → List Text → M (Unit {0})
list fd cmd_vector = do found ← lookup_client fd; list_client fd cmd_vector found
