-- ===== src/Command/Topic.antt =====
-- IRC_PROTOCOL_SERVER/command/Topic.cpp
use irc_protocol_server.Base.{
  ℤ, int_key, nat_key, Text, text, text_key, ◌==◌, not, ◌&&◌, Option, none, some, List, [], ◌∷◌,
  ◌++◌, length, drop, if◌then◌else◌,
}
use irc_protocol_server.Server.{
  when◌act◌otherwise◌, M, ◌>>=◌, ◌>>◌, modify_client, find_channel, modify_channel,
}
use irc_protocol_server.Client.{append_recive_buf}
use irc_protocol_server.Channel.{
  Channel, diff_operator, diff_client_in_channel, diff_mode, set_topic,
}
use irc_protocol_server.Error.{
  crlf, error_nosuchchannel_403, error_notonchannel_442, error_needmoreparams_461,
  error_chanoprivsneeded_482,
}
use irc_protocol_server.Util.{head_is, unwords, prefix_servername, message_all_channel}

-- The topic that the words from the third on set
unfoldable pub new_topic : Text → List Text → Text
unfolding unwords head_is
new_topic word words =
    if word == text ":"
    then []
    else let str = unwords (word ∷ words) in if head_is b':' str then drop 1 str else str

abbrev pub show_topic : ℤ → Text → Channel → M (Unit {0})
show_topic fd name channel =
    when length channel.topic == 0
    act modify_client fd (λ client.
      append_recive_buf
        (prefix_servername
          ++ (text " 331 "
              ++ (client.nick_name
                  ++ (text " "
                      ++ (name ++ (text " :" ++ ((text "No topic is set" ++ crlf) ++ crlf)))))))
        client)
    otherwise modify_client fd (λ client.
      append_recive_buf
        (prefix_servername
          ++ (text " 332 "
              ++ (client.nick_name
                  ++ (text " " ++ (name ++ (text " :" ++ (channel.topic ++ crlf)))))))
        client)

abbrev pub topic_words : ℤ → Text → Channel → List Text → M (Unit {0})
topic_words fd name channel [] = show_topic fd name channel
topic_words fd name channel (word ∷ words) =
    when diff_mode b't' channel && not (diff_operator fd channel)
    act modify_client fd (error_chanoprivsneeded_482 name)
    otherwise do
      modify_channel name (set_topic (new_topic word words))
      message_all_channel fd name (text "TOPIC") (new_topic word words)

abbrev pub topic_found : ℤ → Text → List Text → Option Channel → M (Unit {0})
topic_found fd name words none = modify_client fd (error_nosuchchannel_403 name)
topic_found fd name words (some channel) =
    when diff_client_in_channel fd channel
    act topic_words fd name channel words
    otherwise modify_client fd (error_notonchannel_442 name)

unfoldable pub topic : ℤ → List Text → M (Unit {0})
topic fd (verb ∷ name ∷ words) = do found ← find_channel name; topic_found fd name words found
topic fd _ = modify_client fd error_needmoreparams_461
