-- ===== src/Command/Dispatch.antt =====
-- IRC_PROTOCOL_SERVER/src/Command.cpp: from a message to the handler of its command.
use irc_protocol_server.Base.{
  ℤ, int_key, nat_key, Text, text, text_key, ◌==◌, true, false, not, ◌&&◌, ◌||◌, Option, none, some,
  List, [], ◌∷◌, ◌++◌, contains,
}
use irc_protocol_server.Server.{
  when◌act◌otherwise◌, M, pure, ◌>>=◌, ◌>>◌, index_client, lookup_client, modify_client,
}
use irc_protocol_server.Client.{
  Client, append_recive_buf, write_eof_buffer, clear_eof_buffer, set_eof_flag, get_is_regist,
}
use irc_protocol_server.Error.{crlf, error_unknowncommand_421}
use irc_protocol_server.Util.{is_infix}
use irc_protocol_server.Command.Pass.{pass, turn_away}
use irc_protocol_server.Command.Nick.{nick}
use irc_protocol_server.Command.User.{user}
use irc_protocol_server.Command.Privmsg.{privmsg}
use irc_protocol_server.Command.Quit.{quit}
use irc_protocol_server.Command.Part.{part}
use irc_protocol_server.Command.Join.{join}
use irc_protocol_server.Command.Kick.{kick}
use irc_protocol_server.Command.Mode.{mode}
use irc_protocol_server.Command.Topic.{topic}
use irc_protocol_server.Command.Invite.{invite}
use irc_protocol_server.Command.List.{list}
use irc_protocol_server.Command.Ping.{ping}
use irc_protocol_server.Command.Parse.{Received, get_message, cmd_words}
use irc_protocol_server.Command.Irssi.{irssi_sign_up, welcome}

unfoldable pub not_register : ℤ → M (Unit {0})
not_register fd = turn_away fd (λ c.
    append_recive_buf (c.nick_name ++ (text " :" ++ (text "You have not registered" ++ crlf))) c)

abbrev pub sign_up_command : ℤ → List Text → M (Unit {0})
sign_up_command fd [] = pure tt
sign_up_command fd (verb ∷ words) =
    when verb == text "PASS"
    act pass fd (verb ∷ words)
    otherwise when verb == text "NICK"
    act nick fd (verb ∷ words)
    otherwise when verb == text "USER"
    act user fd (verb ∷ words)
    otherwise not_register fd

unfoldable pub sign_up : ℤ → List Text → M (Unit {0})
sign_up fd cmd_vector = do sign_up_command fd cmd_vector; welcome fd

unfoldable pub unknown_command : ℤ → Text → M (Unit {0})
unknown_command fd verb = do
  found ← lookup_client fd
  elim found [ none ↦ pure tt | some _ ↦ modify_client fd (error_unknowncommand_421 verb) ]

unfoldable pub sign_in : ℤ → List Text → M (Unit {0})
sign_in fd [] = pure tt
sign_in fd (verb ∷ words) =
    let cmd_vector = verb ∷ words in
    when verb == text "USER"
    act user fd cmd_vector
    otherwise when verb == text "NICK"
    act nick fd cmd_vector
    otherwise when verb == text "PASS"
    act pass fd cmd_vector
    otherwise when verb == text "PRIVMSG"
    act privmsg fd cmd_vector
    otherwise when verb == text "QUIT"
    act quit fd cmd_vector
    otherwise when verb == text "PART"
    act part fd cmd_vector
    otherwise when verb == text "JOIN"
    act join fd cmd_vector
    otherwise when verb == text "KICK"
    act kick fd cmd_vector
    otherwise when verb == text "MODE"
    act mode fd cmd_vector
    otherwise when verb == text "TOPIC"
    act topic fd cmd_vector
    otherwise when verb == text "INVITE"
    act invite fd cmd_vector
    otherwise when verb == text "LIST"
    act list fd cmd_vector
    otherwise when verb == text "PING"
    act ping fd cmd_vector
    otherwise when verb == text "WHOIS" || verb == text "WHO"
    act pure tt
    otherwise unknown_command fd verb

abbrev dispatch_client : ℤ → List Text → Option Client → M (Unit {0})
dispatch_client fd cmd_vector none = pure tt
dispatch_client fd cmd_vector (some client) =
    when get_is_regist client act sign_in fd cmd_vector otherwise sign_up fd cmd_vector

-- The end of `act`
unfoldable pub dispatch : ℤ → List Text → M (Unit {0})
dispatch fd cmd_vector = do found ← lookup_client fd; dispatch_client fd cmd_vector found

-- What was kept of an unfinished line goes in front of the message.
unfoldable pub take_eof_buffer : ℤ → Text → M Text
take_eof_buffer fd message = do
  client ← index_client fd
  when client.eof_flag
      act (do
        modify_client fd (set_eof_flag false)
        modify_client fd clear_eof_buffer
        pure (client.eof_buffer ++ message))
      otherwise pure message

-- A message with no newline is kept, for the client that `operator[]` finds or makes.
unfoldable pub keep_partial : ℤ → Text → M (Unit {0})
keep_partial fd message = do
  _ ← index_client fd
  modify_client fd (write_eof_buffer message)
  modify_client fd (set_eof_flag true)

unfoldable pub run_message : ℤ → Text → M (Unit {0})
run_message fd message =
    when is_infix (text "CAP LS") message
    act pure tt
    otherwise when not (contains 10 message)
    act keep_partial fd message
    otherwise when is_infix (text "PASS") message
        && (is_infix (text "NICK") message && is_infix (text "USER") message)
    act (do irssi_sign_up fd message; dispatch fd [])
    otherwise do whole ← take_eof_buffer fd message; dispatch fd (cmd_words whole)

-- `Command::run`, with what `recv` gave
unfoldable pub run : ℤ → Received → M (Unit {0})
run fd received = do message ← get_message fd received; run_message fd message
