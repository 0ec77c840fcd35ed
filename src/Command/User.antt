-- ===== src/Command/User.antt =====
-- IRC_PROTOCOL_SERVER/command/User.cpp
use irc_protocol_server.Base.{
  ℤ, int_key, nat_key, Text, text, text_key, true, not, ◌&&◌, List, ◌∷◌, ◌++◌, length, ltb,
}
use irc_protocol_server.Server.{when◌act◌otherwise◌, M, ◌>>=◌, ◌>>◌, client_at, modify_client}
use irc_protocol_server.Client.{append_recive_buf, set_regi_user, set_userinfo}
use irc_protocol_server.Error.{
  crlf, error_notregistered_451, error_needmoreparams_461, error_alreadyregistred_462,
}
use irc_protocol_server.Util.{head_is, unwords}
use irc_protocol_server.Command.Pass.{turn_away}

unfoldable pub user_usage : ℤ → M (Unit {0})
user_usage fd = do
  modify_client fd error_needmoreparams_461
  modify_client fd
      (append_recive_buf (text "/USER <username> <hostname> <servername> <:realname>" ++ crlf))

unfoldable pub user_given : ℤ → List Text → M (Unit {0})
user_given fd (verb ∷ username ∷ hostname ∷ servername ∷ realname ∷ rest) =
    when ltb 0 (length rest) && not (head_is b':' realname) act user_usage fd otherwise do
      modify_client fd (set_userinfo username hostname servername (unwords (realname ∷ rest)))
      modify_client fd (set_regi_user true)
user_given fd _ = user_usage fd

unfoldable pub user : ℤ → List Text → M (Unit {0})
user fd cmd_vector = do
  client ← client_at fd
  when client.is_regi_user
      act modify_client fd error_alreadyregistred_462
      otherwise when client.is_regi_pass
      act user_given fd cmd_vector
      otherwise turn_away fd error_notregistered_451
