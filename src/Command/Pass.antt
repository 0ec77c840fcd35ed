-- ===== src/Command/Pass.antt =====
-- IRC_PROTOCOL_SERVER/command/Pass.cpp
use irc_protocol_server.Base.{
  ℤ, int_key, nat_key, Text, text, text_key, ◌==◌, true, List, ◌∷◌, ◌++◌,
}
use irc_protocol_server.Server.{
  when◌act◌otherwise◌, M, gets, ◌>>=◌, ◌>>◌, client_at, modify_client, send_buffer, dismiss,
}
use irc_protocol_server.Client.{Client, append_recive_buf, set_regi_pass}
use irc_protocol_server.Error.{
  crlf, error_needmoreparams_461, error_alreadyregistred_462, error_passwdmismatch_464,
}

-- `send`, then the connection is dropped.
unfoldable pub turn_away : ℤ → (Client → Client) → M (Unit {0})
turn_away fd error = do modify_client fd error; send_buffer fd; dismiss fd

unfoldable pub pass_given : ℤ → List Text → M (Unit {0})
pass_given fd (verb ∷ given ∷ rest) = do
  password ← gets (λ s. s.password)
  when given == password
      act modify_client fd (set_regi_pass true)
      otherwise turn_away fd error_passwdmismatch_464
pass_given fd _ = do
  modify_client fd error_needmoreparams_461
  modify_client fd (append_recive_buf (text "/PASS <password>" ++ crlf))

unfoldable pub pass : ℤ → List Text → M (Unit {0})
pass fd command_vec = do
  client ← client_at fd
  when client.is_regi_pass
      act modify_client fd error_alreadyregistred_462
      otherwise pass_given fd command_vec
