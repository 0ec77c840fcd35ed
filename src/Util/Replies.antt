-- ===== src/Util/Replies.antt =====
-- The topic and the name list of IRC_PROTOCOL_SERVER/src/Util.cpp by their effect on the invariant
use irc_protocol_server.Base.{
  ℤ, int_key, nat_key, Text, text_key, ◌≡◌, refl, some, List, [], ◌∷◌, find,
}
use irc_protocol_server.Client.{append_recive_buf}
use irc_protocol_server.Channel.{Channel}
use irc_protocol_server.Server.{Server, client_at, modify_client}
use irc_protocol_server.Server.Ensures.{Ensures-when}
use irc_protocol_server.Server.Links.{Same-Known, Known, WellFormed}
use irc_protocol_server.Server.Quiet.{
  Quiet, Quiet-pure, Quiet-bind, client_at-Quiet, modify_client-Quiet, AllKnown, Same-AllKnown,
  with_channel, at_channel,
}
use irc_protocol_server.Util.Broadcast.{topic_message, name_list, name_list_msg}
use irc_protocol_server.Util.Quiet.{members-AllKnown}

-- `topicMessage` wants the channel to be there.
pub topic_message-Quiet :
    (fd : ℤ) (name : Text) (s : Server) (ch : Channel)
    → find name s.channel_list ≡ some ch
    → Known s fd
    → Quiet (topic_message fd name) s
unfolding topic_message append_recive_buf
topic_message-Quiet fd name s ch there here =
    at_channel s name _ ch there
      (Ensures-when _ _ _ s (λ _. Quiet-pure tt s) λ _. modify_client-Quiet fd _ s (λ c. refl) here)

name_list-Quiet :
    (ch : Channel) (fds : List ℤ) (s : Server) → AllKnown s fds → Quiet (name_list ch fds) s
unfolding name_list
name_list-Quiet ch [] s all = Quiet-pure [] s
name_list-Quiet ch (fd ∷ fds) s all =
    Quiet-bind (client_at fd) _ s (client_at-Quiet fd s all.0) λ c t same.
      Quiet-bind (name_list ch fds) _ t (name_list-Quiet ch fds t (Same-AllKnown fds same all.1))
        λ rest u _. Quiet-pure _ u

pub name_list_msg-Quiet :
    (fd : ℤ) (name : Text) (s : Server)
    → WellFormed s
    → Known s fd
    → Quiet (name_list_msg fd name) s
unfolding name_list_msg append_recive_buf
name_list_msg-Quiet fd name s w here =
    with_channel s name _ (λ _. Quiet-pure tt s)
      λ ch there.
        Quiet-bind (name_list ch ch.client_fd_list) _ s
          (name_list-Quiet ch ch.client_fd_list s (members-AllKnown s name ch w there))
          λ message t same.
            Quiet-bind (modify_client fd _) _ t
              (modify_client-Quiet fd _ t (λ c. refl) (Same-Known fd same here))
              λ _ u later.
                modify_client-Quiet fd _ u (λ c. refl)
                  (Same-Known fd later (Same-Known fd same here))
