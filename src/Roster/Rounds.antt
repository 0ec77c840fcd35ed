-- ===== src/Roster/Rounds.antt =====
-- What the rounds of IRC_PROTOCOL_SERVER/command/Kick.cpp leave as it is
use irc_protocol_server.Base.{
  ℤ, int_key, negsuc, nat_key, Text, text, text_key, ◌==◌, ◌&&◌, not, ◌≡◌, refl, ◌∙◌, ap, Bool,
  true, false, some, List, find, text_eq,
}
use irc_protocol_server.Client.{Client, delete_channel, append_recive_buf}
use irc_protocol_server.Channel.{Channel, remove_fd_list_client, remove_operator_fd}
use irc_protocol_server.Error.{error_nosuchnick_401, error_usernotinchannel_441}
use irc_protocol_server.Server.{Server, ◌>>=◌, pure, modify_client}
use irc_protocol_server.Server.Ensures.{
  Ensures, Ensures-bind, Ensures-mono, Ensures-when, Ensures-pure,
}
use irc_protocol_server.Server.Links.{Known, Same-Known}
use irc_protocol_server.Server.Counts.{put_client, put_channel}
use irc_protocol_server.Server.Quiet.{at_client, modify_client-Ensures}
use irc_protocol_server.Command.Kick.{expel, kick_found}
use irc_protocol_server.Safety.Live.{Live}
use irc_protocol_server.Safety.Part.{left}
use irc_protocol_server.Safety.Kick.{removal-Ensures, target_key}
use irc_protocol_server.Rules.Delivery.{message_all_channel-tell}
use irc_protocol_server.Rules.Mailed.{tell-Mailed}
use irc_protocol_server.Roster.Kick.{same_client}
use irc_protocol_server.Roster.Agree.{
  Agree, Agree-refl, Agree-trans, KeepsNick, put_client-Agree, put_channel-Agree, tell-Agree,
}

left-Agree : (fd target : ℤ) (name : Text) (s : Server) → Agree fd s (left target target name s)
unfolding delete_channel
left-Agree fd target name s =
    Agree-trans (put_client-Agree fd target (delete_channel name) s (λ c. (refl, refl))) (
      Agree-trans
        (put_channel-Agree fd name (remove_fd_list_client target)
          (put_client target (delete_channel name) s))
        (put_channel-Agree fd name (remove_operator_fd target) (
          put_channel name (remove_fd_list_client target)
            (put_client target (delete_channel name) s))))

module _ (fd : ℤ) (name : Text) (s : Server) (c : Client) (live : Live fd s)
    (me : find fd s.client_list ≡ some c) where
  expel-Agree :
      (message : Text) (target : ℤ) (client : Client) (ch : Channel)
      → client.fd ≡ target
      → find name s.channel_list ≡ some ch
      → Known s target
      → Ensures (expel fd name message target client) s (λ _. Agree fd s)
  unfolding expel text_eq
  expel-Agree message target client ch key there known = rw key (
      Ensures-bind _ _ s
        (message_all_channel-tell fd name (text "KICK") message s c ch live.well me there refl)
        λ _ t e.
          let mailed = tell-Mailed fd name (text "KICK") message _ ch.client_fd_list s in
          rw e (
            Ensures-mono
              (removal-Ensures target name _ ch (ap (find name) mailed.channels ∙ there)
                (Same-Known target mailed.same known))
              λ _ u e'. rw e' (
                Agree-trans (tell-Agree fd fd name (text "KICK") message _ ch.client_fd_list s)
                  (left-Agree fd target name _))))

  pub refused-Agree :
      (f : Client → Client) (go : Bool)
      → KeepsNick f
      → Ensures (modify_client fd f >>= λ _. pure go) s (λ b u. (b ≡ go) × Agree fd s u)
  refused-Agree f go keep =
      Ensures-bind _ _ s (modify_client-Ensures fd f s (c, me) (put_client-Agree fd fd f s keep))
        λ _ t agree. Ensures-pure go t (refl, agree)

  pub kick_found-Agree :
      (nickname : Text) (words : List Text) (ch : Channel) (target : ℤ) (client : Client)
      → find name s.channel_list ≡ some ch
      → find target s.client_list ≡ some client
      → Ensures (kick_found fd name nickname words ch (some (target, client))) s (λ b u.
        (b ≡ (not (client.fd == negsuc 0) && not (client.nick_name == c.nick_name))) × Agree fd s u)
  unfolding error_nosuchnick_401 error_usernotinchannel_441 append_recive_buf
  kick_found-Agree nickname words ch target client there here =
      Ensures-when _ _ _ s (λ ghost. rw ghost (refused-Agree _ false (λ d. (refl, refl))))
        λ real.
          at_client s fd _ (c, me)
            λ operator found. rw (same_client fd s operator c found me) (
              Ensures-when _ _ _ s
                (λ self. rw (real, self) (Ensures-pure false s (refl, Agree-refl fd s)))
                λ away.
                  Ensures-when _ _ _ s
                    (λ inside.
                      rw (real, away)
                        (Ensures-bind _ _ s
                          (expel-Agree _ target client ch
                            (target_key s target client live.well here real) there (client, here))
                          λ _ t agree. Ensures-pure true t (refl, agree)))
                    λ outside. rw (real, away) (refused-Agree _ true (λ d. (refl, refl))))
