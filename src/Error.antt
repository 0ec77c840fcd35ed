-- ===== src/Error.antt =====
-- IRC_PROTOCOL_SERVER/src/Error.cpp and the texts of IRC_PROTOCOL_SERVER/includes/Error.hpp:
-- numeric replies, written to the buffer of a client.
use irc_protocol_server.Base.{ℕ, Text, text, [], ◌∷◌, ◌++◌}
use irc_protocol_server.Client.{Client, append_recive_buf}

-- "\r\n"
abbrev pub crlf : Text
crlf = 13 ∷ 10 ∷ []

unfoldable pub error_nosuchnick_401 : Text → Client → Client
unfolding append_recive_buf
error_nosuchnick_401 nickname c =
    append_recive_buf
      (text "401 "
        ++ (c.nick_name
            ++ (text " " ++ (nickname ++ (text " :" ++ (text "No such nick/channel" ++ crlf))))))
      c

unfoldable pub error_nosuchchannel_403 : Text → Client → Client
unfolding append_recive_buf
error_nosuchchannel_403 channel c =
    append_recive_buf
      (text "403 "
        ++ (c.nick_name
            ++ (text " " ++ (channel ++ (text " :" ++ (text "No such channel" ++ crlf))))))
      c

unfoldable pub error_cantsendtochan_404 : Text → Client → Client
unfolding append_recive_buf
error_cantsendtochan_404 channel c =
    append_recive_buf
      (text "404 "
        ++ (c.nick_name
            ++ (text " " ++ (channel ++ (text " :" ++ (text "Cannot send to channel" ++ crlf))))))
      c

unfoldable pub error_usernotinchannel_441 : Text → Text → Client → Client
unfolding append_recive_buf
error_usernotinchannel_441 nickname channel c =
    append_recive_buf
      (text "441 "
        ++ (c.nick_name
            ++ (text " "
                ++ (nickname
                    ++ (text " "
                        ++ (channel
                            ++ (text " :" ++ (text "They aren't on that channel" ++ crlf))))))))
      c

unfoldable pub error_notonchannel_442 : Text → Client → Client
unfolding append_recive_buf
error_notonchannel_442 channel c =
    append_recive_buf
      (text "442 "
        ++ (c.nick_name
            ++ (text " "
                ++ (channel ++ (text " :" ++ (text "You're not on that channel" ++ crlf))))))
      c

unfoldable pub error_useronchannel_443 : Text → Text → Client → Client
unfolding append_recive_buf
error_useronchannel_443 nickname channel c =
    append_recive_buf
      (text "443 "
        ++ (c.nick_name
            ++ (text " "
                ++ (nickname
                    ++ (text " "
                        ++ (channel ++ (text " :" ++ (text "is already on channel" ++ crlf))))))))
      c

unfoldable pub error_nonicknamegiven_431 : Client → Client
unfolding append_recive_buf
error_nonicknamegiven_431 c =
    append_recive_buf (text "431 :" ++ (text "No nickname given" ++ crlf)) c

unfoldable pub error_erroneusnickname_432 : Client → Client
unfolding append_recive_buf
error_erroneusnickname_432 c =
    append_recive_buf (text "432 :" ++ (text "Erroneus nickname" ++ crlf)) c

unfoldable pub error_nicknameinuse_433 : Client → Client
unfolding append_recive_buf
error_nicknameinuse_433 c =
    append_recive_buf (text "433 :" ++ (text "Nickname is already in use" ++ crlf)) c

unfoldable pub error_notregistered_451 : Client → Client
unfolding append_recive_buf
error_notregistered_451 c =
    append_recive_buf (text "451 :" ++ (text "You have not registered" ++ crlf)) c

unfoldable pub error_needmoreparams_461 : Client → Client
unfolding append_recive_buf
error_needmoreparams_461 c =
    append_recive_buf (text "461 :" ++ (text "Not enough parameters" ++ crlf)) c

unfoldable pub error_alreadyregistred_462 : Client → Client
unfolding append_recive_buf
error_alreadyregistred_462 c =
    append_recive_buf (text "462 :" ++ (text "You may not reregister" ++ crlf)) c

unfoldable pub error_passwdmismatch_464 : Client → Client
unfolding append_recive_buf
error_passwdmismatch_464 c =
    append_recive_buf (text "464 :" ++ (text "Password incorrect" ++ crlf)) c

unfoldable pub error_channelisfull_471 : Text → Client → Client
unfolding append_recive_buf
error_channelisfull_471 channel c =
    append_recive_buf
      (text "471 "
        ++ (c.nick_name
            ++ (text " " ++ (channel ++ (text " :" ++ (text "Cannot join channel (+l)" ++ crlf))))))
      c

unfoldable pub error_unknownmode_472 : ℕ → Client → Client
unfolding append_recive_buf
error_unknownmode_472 mode c =
    append_recive_buf
      (text "472 "
        ++ (c.nick_name
            ++ (text " "
                ++ ((mode ∷ []) ++ (text " :" ++ (text "is unknown mode char to me" ++ crlf))))))
      c

unfoldable pub error_inviteonlychan_473 : Text → Client → Client
unfolding append_recive_buf
error_inviteonlychan_473 channel c =
    append_recive_buf
      (text "473 "
        ++ (c.nick_name
            ++ (text " " ++ (channel ++ (text " :" ++ (text "Cannot join channel (+i)" ++ crlf))))))
      c

unfoldable pub error_badchannelkey_475 : Text → Client → Client
unfolding append_recive_buf
error_badchannelkey_475 channel c =
    append_recive_buf
      (text "475 "
        ++ (c.nick_name
            ++ (text " " ++ (channel ++ (text " :" ++ (text "Cannot join channel (+k)" ++ crlf))))))
      c

unfoldable pub error_chanoprivsneeded_482 : Text → Client → Client
unfolding append_recive_buf
error_chanoprivsneeded_482 channel c =
    append_recive_buf
      (text "482 "
        ++ (c.nick_name
            ++ (text " "
                ++ (channel ++ (text " :" ++ (text "You're not channel operator" ++ crlf))))))
      c

unfoldable pub error_unknowncommand_421 : Text → Client → Client
unfolding append_recive_buf
error_unknowncommand_421 command c =
    append_recive_buf
      (text "421 "
        ++ (c.nick_name
            ++ (text " " ++ (command ++ (text " :" ++ (text "Unknown command" ++ crlf))))))
      c
