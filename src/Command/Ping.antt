-- ===== src/Command/Ping.antt =====
-- IRC_PROTOCOL_SERVER/command/Ping.cpp
use irc_protocol_server.Base.{
  ℤ, int_key, nat_key, Text, text, text_key, Option, none, some, List, ◌∷◌, ◌++◌,
}
use irc_protocol_server.Server.{M, pure, ◌>>=◌, ◌>>◌, lookup_client, modify_client}
use irc_protocol_server.Client.{Client, append_recive_buf}
use irc_protocol_server.Error.{crlf, error_needmoreparams_461}
use irc_protocol_server.Util.{prefix_servername}

abbrev pub ping_client : ℤ → List Text → Option Client → M (Unit {0})
ping_client fd cmd_vector none = pure tt
ping_client fd (verb ∷ token ∷ rest) (some _) = modify_client fd (
    append_recive_buf (
      text ":"
      ++ (prefix_servername
          ++ (text " PONG " ++ (prefix_servername ++ (text " :" ++ (token ++ crlf)))))))
ping_client fd _ (some _) = do
  modify_client fd error_needmoreparams_461
  modify_client fd (append_recive_buf (text "/PING <token>" ++ crlf))

unfoldable pub ping : ℤ → List Text → M (Unit {0})
ping fd cmd_vector = do found ← lookup_client fd; ping_client fd cmd_vector found
