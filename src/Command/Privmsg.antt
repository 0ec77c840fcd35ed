-- ===== src/Command/Privmsg.antt =====
-- IRC_PROTOCOL_SERVER/command/Privmsg.cpp
use irc_protocol_server.Base.{
  ℤ, int_key, nat_key, Text, text, text_key, Bool, true, false, ◌||◌, Option, none, some, List, [],
  ◌∷◌, ◌++◌,
}
use irc_protocol_server.Server.{
  when◌act◌otherwise◌, M, pure, undefined_behaviour, ◌>>=◌, ◌>>◌, client_at, modify_client,
  find_client,
}
use irc_protocol_server.Client.{
  Client, append_recive_buf, clear_recive_buf, set_regi_pass, set_regi_nick, set_regi_user,
  set_nickname, set_userinfo, append_channel_list, delete_channel,
}
use irc_protocol_server.Client
use irc_protocol_server.Error.{crlf, error_cantsendtochan_404, error_needmoreparams_461}
use irc_protocol_server.Util.{split, head_is, channel_message, make_msg_form, message_all_channel}

-- A private message: the line that the recipient gets
unfoldable pub private_line : Client → Text → Text → Text
private_line client verb message =
    make_msg_form client verb
    ++ (text " PRIVMSG " ++ (client.nick_name ++ (text " :" ++ (message ++ crlf))))

-- The reply to an unknown nickname is written through the end iterator.
abbrev pub to_nickname : ℤ → Text → Text → Option (ℤ × Client) → M (Unit {0})
to_nickname fd verb message none = undefined_behaviour
to_nickname fd verb message (some (target, _)) = do
  client ← client_at fd
  modify_client target (append_recive_buf (private_line client verb message))

-- One round of the loop; false is its `return`.
unfoldable pub privmsg_target : ℤ → Text → Text → Text → M Bool
privmsg_target fd verb message target =
    when head_is b'#' target || head_is b'&' target
    act (do
      client ← client_at fd
      when Client.find_channel target client
          act (do message_all_channel fd target (text "PRIVMSG") message; pure true)
          otherwise (do modify_client fd (error_cantsendtochan_404 target); pure false))
    otherwise (do found ← find_client target; to_nickname fd verb message found; pure true)

unfoldable pub privmsg_targets : ℤ → Text → Text → List Text → M (Unit {0})
privmsg_targets fd verb message [] = pure tt
privmsg_targets fd verb message (target ∷ targets) = do
  go_on ← privmsg_target fd verb message target
  when go_on act privmsg_targets fd verb message targets otherwise pure tt

unfoldable pub privmsg : ℤ → List Text → M (Unit {0})
privmsg fd (verb ∷ targets ∷ word ∷ words) =
    privmsg_targets fd verb (channel_message 2 (verb ∷ targets ∷ word ∷ words)) (split targets b',')
privmsg fd _ = modify_client fd error_needmoreparams_461
