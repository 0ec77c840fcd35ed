-- ===== src/Authority/Idle.antt =====
-- The handlers of IRC_PROTOCOL_SERVER/command that write to no channel: PASS, NICK, USER, PRIVMSG,
-- LIST, PING and what comes before the dispatch
use irc_protocol_server.Base.{
  ℤ, int_key, Text, refl, true, false, Option, none, some, List, [], ◌∷◌,
}
use irc_protocol_server.Client.{Client}
use irc_protocol_server.Server.{Server, ◌>>=◌, modify_client}
use irc_protocol_server.Server.Obeys.{
  Obeys, Obeys-bind, Obeys-option, Obeys-pure, Obeys-undefined, Obeys-for_ever, Obeys-gets,
  Obeys-modify, Obeys-when, Obeys-for_each, Obeys-find_channel, Obeys-find_client, Obeys-client_at,
  OfChannels, Obeys-modify_client, Obeys-send_buffer, Obeys-dismiss,
}
use irc_protocol_server.Util.Obeys.{message_all_channel-Obeys}
use irc_protocol_server.Command.Pass.{turn_away, pass_given, pass}
use irc_protocol_server.Command.User.{user_usage, user_given, user}
use irc_protocol_server.Command.Nick.{
  announce_nick, announce_to, change_nick, nick_checked, nick_given, nick,
}
use irc_protocol_server.Command.Privmsg.{to_nickname, privmsg_target, privmsg_targets, privmsg}

module _ {P : Server → Type 0} (of : OfChannels P) (fd : ℤ) where
  pub turn_away-Obeys : (error : Client → Client) → Obeys P (turn_away fd error)
  unfolding turn_away
  turn_away-Obeys error =
      Obeys-bind (Obeys-modify_client of fd error)
        λ _. Obeys-bind (Obeys-send_buffer of fd) λ _. Obeys-dismiss of fd

  pub two_writes-Obeys :
      (f g : Client → Client) → Obeys P (modify_client fd f >>= λ _. modify_client fd g)
  two_writes-Obeys f g = Obeys-bind (Obeys-modify_client of fd f) λ _. Obeys-modify_client of fd g

  pass_given-Obeys : (words : List Text) → Obeys P (pass_given fd words)
  unfolding pass_given
  pass_given-Obeys [] = two_writes-Obeys _ _
  pass_given-Obeys (verb ∷ []) = two_writes-Obeys _ _
  pass_given-Obeys (verb ∷ given ∷ rest) =
      Obeys-bind (Obeys-gets _)
        λ password. Obeys-when _ (Obeys-modify_client of fd _) (turn_away-Obeys _)

  pub pass-Obeys : (words : List Text) → Obeys P (pass fd words)
  unfolding pass
  pass-Obeys words =
      Obeys-bind (Obeys-client_at fd)
        λ client. Obeys-when _ (Obeys-modify_client of fd _) (pass_given-Obeys words)

  user_given-Obeys : (words : List Text) → Obeys P (user_given fd words)
  unfolding user_given user_usage
  user_given-Obeys [] = two_writes-Obeys _ _
  user_given-Obeys (verb ∷ []) = two_writes-Obeys _ _
  user_given-Obeys (verb ∷ a ∷ []) = two_writes-Obeys _ _
  user_given-Obeys (verb ∷ a ∷ b ∷ []) = two_writes-Obeys _ _
  user_given-Obeys (verb ∷ a ∷ b ∷ c ∷ []) = two_writes-Obeys _ _
  user_given-Obeys (verb ∷ a ∷ b ∷ c ∷ realname ∷ rest) =
      Obeys-when _ (two_writes-Obeys _ _) (two_writes-Obeys _ _)

  pub user-Obeys : (words : List Text) → Obeys P (user fd words)
  unfolding user
  user-Obeys words = Obeys-bind (Obeys-client_at fd) λ client.
      Obeys-when _ (Obeys-modify_client of fd _)
        (Obeys-when _ (user_given-Obeys words) (turn_away-Obeys _))

  announce_nick-Obeys : (name channel : Text) → Obeys P (announce_nick fd name channel)
  unfolding announce_nick
  announce_nick-Obeys name channel =
      Obeys-option _ (Obeys-find_channel channel) (Obeys-pure tt)
        λ ch. message_all_channel-Obeys of fd _ _ _

  announce_to-Obeys :
      (verb name : Text) (client : Client) (channels : List Text)
      → Obeys P (announce_to fd verb name client channels)
  announce_to-Obeys verb name client [] = Obeys-modify_client of fd _
  announce_to-Obeys verb name client (channel ∷ channels) =
      Obeys-for_each (channel ∷ channels) λ c. announce_nick-Obeys name c

  nick_checked-Obeys : (verb : Text) (found : Option Text) → Obeys P (nick_checked fd verb found)
  unfolding change_nick
  nick_checked-Obeys verb none = Obeys-for_ever
  nick_checked-Obeys verb (some name) = Obeys-when _ (two_writes-Obeys _ _) (
      Obeys-bind (Obeys-gets _) λ unused.
        Obeys-when unused
          (Obeys-bind (Obeys-client_at fd) λ client.
            Obeys-bind (Obeys-modify _ λ s p. of s _ refl p) λ _.
              Obeys-bind (announce_to-Obeys verb name client client.channel_list)
                λ _. two_writes-Obeys _ _)
          (Obeys-modify_client of fd _))

  nick_given-Obeys : (words : List Text) → Obeys P (nick_given fd words)
  unfolding nick_given
  nick_given-Obeys [] = Obeys-modify_client of fd _
  nick_given-Obeys (verb ∷ []) = Obeys-modify_client of fd _
  nick_given-Obeys (verb ∷ wanted ∷ rest) =
      Obeys-bind (Obeys-gets _) λ found. nick_checked-Obeys verb found

  pub nick-Obeys : (words : List Text) → Obeys P (nick fd words)
  unfolding nick
  nick-Obeys words =
      Obeys-bind (Obeys-client_at fd)
        λ client. Obeys-when _ (nick_given-Obeys words) (turn_away-Obeys _)

  to_nickname-Obeys :
      (verb message : Text) (found : Option (ℤ × Client))
      → Obeys P (to_nickname fd verb message found)
  to_nickname-Obeys verb message none = Obeys-undefined
  to_nickname-Obeys verb message (some (target, _)) =
      Obeys-bind (Obeys-client_at fd) λ client. Obeys-modify_client of target _

  privmsg_targets-Obeys :
      (verb message : Text) (targets : List Text)
      → Obeys P (privmsg_targets fd verb message targets)
  unfolding privmsg_targets privmsg_target
  privmsg_targets-Obeys verb message [] = Obeys-pure tt
  privmsg_targets-Obeys verb message (target ∷ targets) =
      Obeys-bind
        (Obeys-when _
          (Obeys-bind (Obeys-client_at fd) λ client.
            Obeys-when _ (Obeys-bind (message_all_channel-Obeys of fd _ _ _) λ _. Obeys-pure true)
              (Obeys-bind (Obeys-modify_client of fd _) λ _. Obeys-pure false))
          (Obeys-bind (Obeys-find_client target)
            λ found. Obeys-bind (to_nickname-Obeys verb message found) λ _. Obeys-pure true))
        λ go_on. Obeys-when go_on (privmsg_targets-Obeys verb message targets) (Obeys-pure tt)

  pub privmsg-Obeys : (words : List Text) → Obeys P (privmsg fd words)
  unfolding privmsg
  privmsg-Obeys [] = Obeys-modify_client of fd _
  privmsg-Obeys (verb ∷ []) = Obeys-modify_client of fd _
  privmsg-Obeys (verb ∷ targets ∷ []) = Obeys-modify_client of fd _
  privmsg-Obeys (verb ∷ targets ∷ word ∷ words) = privmsg_targets-Obeys verb _ _
