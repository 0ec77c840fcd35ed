-- ===== src/Safety/Reports.antt =====
-- PING, LIST, TOPIC and INVITE (IRC_PROTOCOL_SERVER/command) from well-formed tables
use irc_protocol_server.Server.Nicknames.{with_nickname-Known}
use irc_protocol_server.Base.{
  ℤ, int_key, nat_key, Text, text, text_key, ◌≡◌, refl, some, List, [], ◌∷◌, find,
}
use irc_protocol_server.Client.{Client, append_recive_buf, clear_recive_buf}
use irc_protocol_server.Channel.{Channel, set_topic, append_fd_list_invite}
use irc_protocol_server.Error.{
  error_nosuchchannel_403, error_needmoreparams_461, error_notonchannel_442,
  error_chanoprivsneeded_482, error_nosuchnick_401, error_useronchannel_443,
}
use irc_protocol_server.Server.{Server, ◌>>=◌, gets, for_each}
use irc_protocol_server.Server.Ensures.{
  Ensures, Ensures-bind, Ensures-when, Ensures-pure, Ensures-gets, Ensures-for_each,
}
use irc_protocol_server.Server.Links.{Known}
use irc_protocol_server.Server.Quiet.{
  modify_client-Quiet, modify_channel-Quiet, send_buffer-Quiet, with_channel, with_client,
  with_named, at_client, IsCalm,
}
use irc_protocol_server.Util.Quiet.{message_all_channel-Quiet}
use irc_protocol_server.Command.Topic.{topic, topic_words}
use irc_protocol_server.Command.Invite.{invite, send_invite}
use irc_protocol_server.Command.List.{list, list_channel, list_named, list_channels}
use irc_protocol_server.Command.Ping.{ping}
use irc_protocol_server.Safety.Live.{
  Live, Live-Known, Live-then, Live-Quiet, Same-channel, Live-answer,
}

-- PING of a client that is on the server and has registered returns from well-formed
-- tables, and keeps them well-formed and that client in them.
pub ping-Live :
    (fd : ℤ) (cmd_vector : List Text) (s : Server)
    → Live fd s
    → Ensures (ping fd cmd_vector) s (λ _. Live fd)
unfolding ping append_recive_buf error_needmoreparams_461
ping-Live fd [] s live =
    with_client s fd _ (λ _. Ensures-pure tt s live)
      λ c here.
        Live-then _ _ s live (modify_client-Quiet fd _ s (λ d. refl) (Live-Known live))
          λ _ t _ live'. Live-answer fd _ t live' (λ d. refl)
ping-Live fd (verb ∷ []) s live =
    with_client s fd _ (λ _. Ensures-pure tt s live)
      λ c here.
        Live-then _ _ s live (modify_client-Quiet fd _ s (λ d. refl) (Live-Known live))
          λ _ t _ live'. Live-answer fd _ t live' (λ d. refl)
ping-Live fd (verb ∷ token ∷ rest) s live =
    with_client s fd _ (λ _. Ensures-pure tt s live) λ c here. Live-answer fd _ s live (λ d. refl)

list_channel-Live :
    (fd : ℤ) (ch : Channel) (s : Server) → Live fd s → Ensures (list_channel fd ch) s (λ _. Live fd)
unfolding list_channel append_recive_buf
list_channel-Live fd ch s live = Live-answer fd _ s live (λ d. refl)

list_all-Live :
    (fd : ℤ) (s : Server)
    → Live fd s
    → Ensures
        (gets (λ s. s.channel_list) >>= λ channels.
          for_each channels (λ (name, channel). list_channel fd channel))
        s
        (λ _. Live fd)
list_all-Live fd s live =
    Ensures-bind {Q = λ _. Live fd} _ _ s (Ensures-gets _ s live) λ channels t live'.
      Ensures-for_each (λ entry u. list_channel-Live fd entry.1 u) channels live'

list_named-Live :
    (fd : ℤ) (name : Text) (s : Server) → Live fd s → Ensures (list_named fd name) s (λ _. Live fd)
list_named-Live fd name s live =
    with_channel s name _ (λ _. Ensures-pure tt s live) λ ch there. list_channel-Live fd ch s live

list_channels-Live :
    (fd : ℤ) (cmd_vector : List Text) (s : Server)
    → Live fd s
    → Ensures (list_channels fd cmd_vector) s (λ _. Live fd)
list_channels-Live fd [] s live = list_all-Live fd s live
list_channels-Live fd (verb ∷ []) s live = list_all-Live fd s live
list_channels-Live fd (verb ∷ names ∷ words) s live =
    Ensures-when _ _ _ s (λ _. list_all-Live fd s live)
      λ _. Ensures-for_each (λ name t. list_named-Live fd name t) _ live

-- LIST of a client that is on the server and has registered returns from well-formed
-- tables, and keeps them well-formed and that client in them.
pub list-Live :
    (fd : ℤ) (cmd_vector : List Text) (s : Server)
    → Live fd s
    → Ensures (list fd cmd_vector) s (λ _. Live fd)
unfolding list append_recive_buf clear_recive_buf
list-Live fd cmd_vector s live =
    with_client s fd _ (λ _. Ensures-pure tt s live)
      λ c here. Ensures-bind _ _ s (Live-answer fd _ s live (λ d. refl)) λ _ t l1.
        Ensures-bind _ _ t (list_channels-Live fd cmd_vector t l1) λ _ u l2.
          Ensures-bind _ _ u (Live-answer fd _ u l2 (λ d. refl)) λ _ v l3.
            Live-then _ _ v l3 (send_buffer-Quiet fd v (Live-Known l3))
              λ _ w _ l4. Live-answer fd _ w l4 (λ d. refl)

set_topic-IsCalm : (new : Text) → IsCalm (set_topic new)
unfolding set_topic
set_topic-IsCalm new c = refl

topic_words-Live :
    (fd : ℤ) (name : Text) (ch : Channel) (words : List Text) (s : Server)
    → find name s.channel_list ≡ some ch
    → Live fd s
    → Ensures (topic_words fd name ch words) s (λ _. Live fd)
unfolding append_recive_buf error_chanoprivsneeded_482
topic_words-Live fd name ch [] s there live =
    Ensures-when _ _ _ s (λ _. Live-answer fd _ s live (λ d. refl))
      λ _. Live-answer fd _ s live (λ d. refl)
topic_words-Live fd name ch (word ∷ words) s there live =
    Ensures-when _ _ _ s (λ _. Live-answer fd _ s live (λ d. refl))
      λ _.
        Live-then _ _ s live (modify_channel-Quiet name _ s ch (set_topic-IsCalm _) there)
          λ _ t _ l.
            Live-Quiet l
              (message_all_channel-Quiet fd name t l.well (Live-Known l) (text "TOPIC") _)

-- TOPIC of a client that is on the server and has registered returns from well-formed
-- tables, and keeps them well-formed and that client in them.
pub topic-Live :
    (fd : ℤ) (cmd_vector : List Text) (s : Server)
    → Live fd s
    → Ensures (topic fd cmd_vector) s (λ _. Live fd)
unfolding topic error_needmoreparams_461 error_nosuchchannel_403 error_notonchannel_442
topic-Live fd [] s live = Live-answer fd _ s live (λ d. refl)
topic-Live fd (verb ∷ []) s live = Live-answer fd _ s live (λ d. refl)
topic-Live fd (verb ∷ name ∷ words) s live =
    with_channel s name _ (λ _. Live-answer fd _ s live (λ d. refl))
      λ ch there.
        Ensures-when _ _ _ s (λ _. topic_words-Live fd name ch words s there live)
          λ _. Live-answer fd _ s live (λ d. refl)

append_fd_list_invite-IsCalm : (fd : ℤ) → IsCalm (append_fd_list_invite fd)
unfolding append_fd_list_invite
append_fd_list_invite-IsCalm fd c = refl

send_invite-Live :
    (fd : ℤ) (nickname name : Text) (target : ℤ) (invited : Client) (s : Server) (ch : Channel)
    → Known s target
    → find name s.channel_list ≡ some ch
    → Live fd s
    → Ensures (send_invite fd nickname name target invited) s (λ _. Live fd)
unfolding send_invite append_recive_buf
send_invite-Live fd nickname name target invited s ch known there live =
    at_client s fd _ (Live-Known live) λ c here.
      Live-then _ _ s live (modify_client-Quiet target _ s (λ d. refl) known) λ _ t same l.
        let (ch', there', _) = Same-channel name ch same there in
        Live-then _ _ t l (modify_client-Quiet fd _ t (λ d. refl) (Live-Known l)) λ _ u same' l'.
          let (ch'', there'', _) = Same-channel name ch' same' there' in
          Live-Quiet l'
            (modify_channel-Quiet name _ u ch'' (append_fd_list_invite-IsCalm _) there'')

-- INVITE of a client that is on the server and has registered returns from well-formed
-- tables, and keeps them well-formed and that client in them.
pub invite-Live :
    (fd : ℤ) (cmd_vector : List Text) (s : Server)
    → Live fd s
    → Ensures (invite fd cmd_vector) s (λ _. Live fd)
unfolding invite error_needmoreparams_461 error_nosuchchannel_403 error_notonchannel_442
    error_nosuchnick_401 error_chanoprivsneeded_482 error_useronchannel_443
invite-Live fd [] s live = Live-answer fd _ s live (λ d. refl)
invite-Live fd (verb ∷ []) s live = Live-answer fd _ s live (λ d. refl)
invite-Live fd (verb ∷ nickname ∷ []) s live = Live-answer fd _ s live (λ d. refl)
invite-Live fd (verb ∷ nickname ∷ name ∷ words) s live =
    with_named s nickname _
      (λ _.
        with_channel s name _ (λ _. Live-answer fd _ s live (λ d. refl))
          λ ch there. Live-answer fd _ s live (λ d. refl))
      λ p there.
        with_channel s name _ (λ _. Live-answer fd _ s live (λ d. refl))
          λ ch found. at_client s fd _ (Live-Known live) λ c here.
            Ensures-when _ _ _ s (λ _. Live-answer fd _ s live (λ d. refl))
              λ _.
                Ensures-when _ _ _ s (λ _. Live-answer fd _ s live (λ d. refl))
                  λ _.
                    Ensures-when _ _ _ s (λ _. Live-answer fd _ s live (λ d. refl))
                      λ _.
                        send_invite-Live fd nickname name p.0 p.1 s ch
                          (with_nickname-Known nickname s.client_list p there) found live
