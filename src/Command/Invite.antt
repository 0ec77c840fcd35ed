-- ===== src/Command/Invite.antt =====
-- IRC_PROTOCOL_SERVER/command/Invite.cpp
use irc_protocol_server.Base.{
  ℤ, int_key, nat_key, Text, text, text_key, not, Option, none, some, List, ◌∷◌, ◌++◌,
}
use irc_protocol_server.Server.{
  when◌act◌otherwise◌, M, ◌>>=◌, ◌>>◌, client_at, modify_client, find_channel, modify_channel,
  find_client,
}
use irc_protocol_server.Client.{Client, append_recive_buf}
use irc_protocol_server.Channel.{
  Channel, diff_operator, diff_client_in_channel, append_fd_list_invite,
}
use irc_protocol_server.Error.{
  crlf, error_nosuchnick_401, error_nosuchchannel_403, error_notonchannel_442,
  error_useronchannel_443, error_needmoreparams_461, error_chanoprivsneeded_482,
}
use irc_protocol_server.Util.{prefix_servername}

unfoldable pub send_invite : ℤ → Text → Text → ℤ → Client → M (Unit {0})
send_invite fd nickname name target invited = do
  client ← client_at fd
  modify_client target (
      append_recive_buf (
        text ":"
        ++ (client.nick_name
            ++ (text " INVITE " ++ (invited.nick_name ++ (text " " ++ (name ++ crlf)))))))
  modify_client fd (
      append_recive_buf (
        prefix_servername
        ++ (text " 341 "
            ++ (client.nick_name
                ++ (text " "
                    ++ (nickname
                        ++ (text " "
                            ++ (name ++ (text " :" ++ ((text "Inviting" ++ crlf) ++ crlf))))))))))
  modify_channel name (append_fd_list_invite invited.fd)

abbrev pub invite_found : ℤ → Text → Text → Option (ℤ × Client) → Option Channel → M (Unit {0})
invite_found fd nickname name none found = modify_client fd (error_nosuchnick_401 nickname)
invite_found fd nickname name (some target) none = modify_client fd (error_nosuchchannel_403 name)
invite_found fd nickname name (some (target, invited)) (some channel) = do
  client ← client_at fd
  when not (diff_client_in_channel client.fd channel)
      act modify_client fd (error_notonchannel_442 name)
      otherwise when not (diff_operator client.fd channel)
      act modify_client fd (error_chanoprivsneeded_482 name)
      otherwise when diff_client_in_channel invited.fd channel
      act modify_client fd (error_useronchannel_443 nickname name)
      otherwise send_invite fd nickname name target invited

unfoldable pub invite : ℤ → List Text → M (Unit {0})
invite fd (verb ∷ nickname ∷ name ∷ words) = do
  target ← find_client nickname
  found ← find_channel name
  invite_found fd nickname name target found
invite fd _ = modify_client fd error_needmoreparams_461
